-- ===== src/Tools/UserScriptRun/Laws.antt =====
-- What `user_script_run` runs on the host: one script below the directory of the user scripts.
use better_unraid_mcp.Base.{
  ℕ, ◌≡◌, ◌≢◌, refl, ap, ◌⊎◌, inl, inr, Text, u, List, [], ◌∷◌, ◌++◌, true, false, Option, some,
  All, is_alnum, is_alpha, is_digit, ◌==◌, split_on, split_on-append, arith,
}
use mathlib.Core.List.{append-nil}
use better_unraid_mcp.Effects.{Attempt, guarded_cases}
use better_unraid_mcp.Respond.{ToolResult}
use better_unraid_mcp.Gate.{ElicitationChannel}
use better_unraid_mcp.Gate.Laws.{RiskAccepted, risk_gated}
use better_unraid_mcp.Tools.QuoteShell.Reader.{
  words, read, move, in_word, push, close, at_end, is_literal,
}
use better_unraid_mcp.Tools.QuoteShell.Laws.{read-quote_for_shell_within, prepend-some}
use better_unraid_mcp.Tools.Ssh.{ShellCommand, ShellExecutor, refuse_unless}
use better_unraid_mcp.Tools.Ssh.Laws.{execute_then, refuse_unless-none}
use better_unraid_mcp.Tools.UserScriptRun.{
  is_script_char, script_rest, script_name_pattern, dot_only_pattern, UserScriptRunArgs,
  script_path, runner_steps, build_runner, run_command, refusal_message, run_script, name_valid,
  user_script_run,
}

user_script_run-Sends :
    (shell : ShellExecutor) (channel : Option ElicitationChannel) (args : UserScriptRunArgs)
    → let sent = (user_script_run (some shell) channel args []).1 in
      (sent ≡ [])
      ⊎ ((name_valid args.name ≡ true)
          × RiskAccepted args.flags (refusal_message args.name) channel
          × (sent ≡ run_command args ∷ []))
unfolding user_script_run run_script
user_script_run-Sends shell channel args =
    guarded_cases Q (refuse_unless (name_valid args.name) _) _ [] (λ r e. inl refl)
      (λ e.
        risk_gated Q args.flags (refusal_message args.name) channel _ [] (λ r g. inl refl)
          (λ g. inr (
            refuse_unless-none (name_valid args.name) _ e,
            g,
            execute_then (λ p. p.1 ≡ run_command args ∷ []) shell (run_command args) [] _
                (λ m. refl) (λ result a. refl),
          )))
  where
    Q : Attempt ToolResult × List ShellCommand → Type 0
    Q p =
        (p.1 ≡ [])
        ⊎ ((name_valid args.name ≡ true)
            × RiskAccepted args.flags (refusal_message args.name) channel
            × (p.1 ≡ run_command args ∷ []))

script_char≢slash : (c : ℕ) → is_script_char c ≡ true → (c == b'/') ≡ false
unfolding is_script_char is_alnum is_alpha is_digit
script_char≢slash c h = ground arith

script_rest-All : (s : Text) → script_rest s ≡ true → All (λ c. (c == b'/') ≡ false) s
unfolding script_rest
script_rest-All [] h = tt
script_rest-All (c ∷ s) h = (script_char≢slash c (ground arith), script_rest-All s (ground arith))

pattern-All : (s : Text) → script_name_pattern s ≡ true → All (λ c. (c == b'/') ≡ false) s
unfolding script_name_pattern
pattern-All [] h = tt
pattern-All (c ∷ s) h = script_rest-All (c ∷ s) h

-- A folder of its own directly below the directory of the user scripts.
abbrev pub IsOwnFolder : Text → Type 0
IsOwnFolder name =
    (split_on b'/' (script_path name)
      ≡ u ""
        ∷ u "boot"
        ∷ u "config"
        ∷ u "plugins"
        ∷ u "user.scripts"
        ∷ u "scripts"
        ∷ name
        ∷ u "script"
        ∷ [])
    × (name ≢ u ".")
    × (name ≢ u "..")

script_path-IsOwnFolder : (name : Text) → name_valid name ≡ true → IsOwnFolder name
unfolding script_path u split_on dot_only_pattern
script_path-IsOwnFolder name h = (
  rw (split_on-append b'/' name (u "script") (pattern-All name (ground arith))) refl,
  (λ e. absurd (dotted name h (rw e refl))),
  λ e. absurd (dotted name h (rw e refl)),
)
  where
    dotted : (s : Text) → name_valid s ≡ true → dot_only_pattern s ≡ true → ⊥
    dotted s v d = ground arith

build_runner-words :
    (name : Text) → words (build_runner name) ≡ some ((u "S=" ++ script_path name) ∷ [])
unfolding build_runner words read move in_word push close at_end u is_literal is_alnum is_alpha
    is_digit
build_runner-words name =
    rw (read-quote_for_shell_within (script_path name) (u "; " ++ runner_steps)) (
      rw (prepend-some (script_path name) [] [])
        (ap (λ s. some ((u "S=" ++ s) ∷ [])) (append-nil (script_path name))))

-- A call sends nothing, or its name is valid, it is authorised and it sends its one command, which first
-- sets `S` to the path of the script. Cut at its slashes, the path has the name as its seventh part, below
-- the directory of the user scripts, and the name is neither `.` nor `..`.
pub user_script_run_lem :
    (shell : ShellExecutor) (channel : Option ElicitationChannel) (args : UserScriptRunArgs)
    → let sent = (user_script_run (some shell) channel args []).1 in
      (sent ≡ [])
      ⊎ ((name_valid args.name ≡ true)
          × RiskAccepted args.flags (refusal_message args.name) channel
          × (words (build_runner args.name) ≡ some ((u "S=" ++ script_path args.name) ∷ []))
          × IsOwnFolder args.name
          × (sent ≡ run_command args ∷ []))
user_script_run_lem shell channel args = elim (user_script_run-Sends shell channel args) [
  | inl e ↦ inl e
  | inr (valid, accepted, alone) ↦ inr (
    valid,
    accepted,
    build_runner-words args.name,
    script_path-IsOwnFolder args.name valid,
    alone,
  )
]
