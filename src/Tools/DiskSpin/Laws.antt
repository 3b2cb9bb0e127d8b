-- ===== src/Tools/DiskSpin/Laws.antt =====
-- What `disk_spin` runs on the host. The name of the disk goes into the command without quotes, so the
-- tests on it must keep it one word.
use better_unraid_mcp.Base.{
  ℕ, ◌≡◌, refl, ◌⊎◌, inl, inr, Text, u, List, [], ◌∷◌, ◌++◌, Bool, true, Option, none, some, All,
  all-All, is_digit, is_alnum, is_alpha, ◌==◌, Bool-cases, Option-cases, arith,
}
use better_unraid_mcp.Effects.{Attempt, guarded_cases}
use better_unraid_mcp.Respond.{ToolResult}
use better_unraid_mcp.Gate.{ElicitationChannel}
use better_unraid_mcp.Gate.Laws.{Confirmed, confirmation_gated}
use better_unraid_mcp.Tools.QuoteShell.Reader.{
  words, read, bare, between, move, in_word, push, close, at_end, is_literal,
}
use better_unraid_mcp.Tools.QuoteShell.Laws.{read-literal_last, read-literal_middle}
use better_unraid_mcp.Tools.Ssh.{ShellCommand, ShellExecutor}
use better_unraid_mcp.Tools.Ssh.Laws.{checked_then}
use better_unraid_mcp.Tools.DiskSpin.{
  after, all_digits, is_small, all_small, some_digits, optional_digit, some_small, continues,
  disk_name_pattern, device_pattern, SpinAction, up, down, DiskSpinArgs, target_error,
  validate_target, action_text, verb, device_text, command_for, build_command, spin_command,
  describe, refuse_invalid, run_spin, disk_spin,
}

abbrev AllLiteral : Text → Type 0
AllLiteral s = All (λ c. is_literal c ≡ true) s

after-AllLiteral :
    (test : Text → Bool) (prefix s : Text)
    → AllLiteral prefix
    → ((rest : Text) → test rest ≡ true → AllLiteral rest)
    → continues test (after prefix s) ≡ true
    → AllLiteral s
unfolding after continues
after-AllLiteral test [] s l f h = f s h
after-AllLiteral test (p ∷ ps) [] l f h = tt
after-AllLiteral test (p ∷ ps) (c ∷ s) (l, ls) f h = elim (Bool-cases (c == p)) [
  | inl e ↦ (ground arith, after-AllLiteral test ps s ls f (ground arith))
  | inr e ↦ absurd (ground arith)
]

digit-literal : (c : ℕ) → is_digit c ≡ true → is_literal c ≡ true
unfolding is_literal is_digit is_alnum is_alpha
digit-literal c h = ground arith

small-literal : (c : ℕ) → is_small c ≡ true → is_literal c ≡ true
unfolding is_literal is_digit is_alnum is_alpha is_small
small-literal c h = ground arith

digits-AllLiteral : (s : Text) → all_digits s ≡ true → AllLiteral s
unfolding all_digits
digits-AllLiteral [] h = tt
digits-AllLiteral (c ∷ s) h = (digit-literal c (ground arith), digits-AllLiteral s (ground arith))

small-AllLiteral : (s : Text) → all_small s ≡ true → AllLiteral s
unfolding all_small
small-AllLiteral [] h = tt
small-AllLiteral (c ∷ s) h = (small-literal c (ground arith), small-AllLiteral s (ground arith))

some_digits-AllLiteral : (s : Text) → some_digits s ≡ true → AllLiteral s
unfolding some_digits
some_digits-AllLiteral [] h = tt
some_digits-AllLiteral (c ∷ s) h = digits-AllLiteral (c ∷ s) h

optional_digit-AllLiteral : (s : Text) → optional_digit s ≡ true → AllLiteral s
unfolding optional_digit
optional_digit-AllLiteral [] h = tt
optional_digit-AllLiteral (c ∷ []) h = (digit-literal c h, tt)
optional_digit-AllLiteral (c ∷ (d ∷ s)) h = ground arith

some_small-AllLiteral : (s : Text) → some_small s ≡ true → AllLiteral s
unfolding some_small
some_small-AllLiteral [] h = tt
some_small-AllLiteral (c ∷ s) h = small-AllLiteral (c ∷ s) h

disk-AllLiteral : (disk : Text) → disk_name_pattern disk ≡ true → AllLiteral disk
unfolding disk_name_pattern is_literal is_alnum is_alpha is_digit u
disk-AllLiteral disk h = elim (Bool-cases (continues some_digits (after (u "disk") disk))) [
  | inl e ↦
      after-AllLiteral some_digits (u "disk") disk (all-All is_literal (u "disk") refl)
        some_digits-AllLiteral e
  | inr e ↦ elim (Bool-cases (continues optional_digit (after (u "parity") disk))) [
    | inl f ↦
        after-AllLiteral optional_digit (u "parity") disk (all-All is_literal (u "parity") refl)
          optional_digit-AllLiteral f
    | inr f ↦
        after-AllLiteral all_digits (u "cache") disk (all-All is_literal (u "cache") refl)
          digits-AllLiteral (ground arith)
  ]
]

device-AllLiteral : (device : Text) → device_pattern device ≡ true → AllLiteral device
unfolding device_pattern is_literal is_alnum is_alpha is_digit u
device-AllLiteral device h =
    after-AllLiteral some_small (u "/dev/sd") device (all-All is_literal (u "/dev/sd") refl)
      some_small-AllLiteral h

-- The words that the command should have.
abbrev pub intended : SpinAction → Option Text → Option Text → List Text
intended action (some disk) device =
    u "/usr/local/sbin/emcmd" ∷ (verb action ++ (u "=" ++ disk)) ∷ []
intended action none device =
    u "/usr/local/sbin/sdspin" ∷ device_text device ∷ action_text action ∷ []

read_device :
    (device rest : Text) (others : List Text)
    → device_pattern device ≡ true
    → read bare rest ≡ some ([] ∷ others)
    → read between (device ++ rest) ≡ some (device ∷ others)
unfolding device_pattern after continues u
read_device [] rest others h e = ground arith
read_device (c ∷ s) rest others h e =
    read-literal_middle c s rest others (device-AllLiteral (c ∷ s) h) e

valid_disk : (disk : Text) → target_error (some disk) none ≡ none → disk_name_pattern disk ≡ true
unfolding target_error
valid_disk disk h = ground arith

valid_device :
    (device : Text) → target_error none (some device) ≡ none → device_pattern device ≡ true
unfolding target_error
valid_device device h = ground arith

command-words :
    (action : SpinAction) (disk device : Option Text)
    → target_error disk device ≡ none
    → words (command_for action disk device) ≡ some (intended action disk device)
unfolding target_error command_for verb action_text device_text words read move in_word push close u
    is_literal is_alnum is_alpha is_digit at_end
command-words action none none h = ground arith
command-words action (some disk) (some device) h = ground arith
command-words up (some disk) none h =
    rw (read-literal_last disk (disk-AllLiteral disk (valid_disk disk h))) refl
command-words down (some disk) none h =
    rw (read-literal_last disk (disk-AllLiteral disk (valid_disk disk h))) refl
command-words up none (some device) h =
    rw (read_device device (u " up") (u "up" ∷ []) (valid_device device h) refl) refl
command-words down none (some device) h =
    rw (read_device device (u " down") (u "down" ∷ []) (valid_device device h) refl) refl

disk_spin-Sends :
    (shell : ShellExecutor) (channel : Option ElicitationChannel) (args : DiskSpinArgs)
    → let sent = (disk_spin (some shell) channel args []).1 in
      (sent ≡ [])
      ⊎ ((validate_target args ≡ none)
          × Confirmed args.confirm (describe args) channel
          × (sent ≡ spin_command args ∷ []))
unfolding disk_spin run_spin
disk_spin-Sends shell channel args =
    guarded_cases Q (refuse_invalid (validate_target args)) _ [] (λ r e. inl refl)
      (λ e.
        confirmation_gated Q args.confirm (describe args) channel _ [] (λ r g. inl refl)
          (λ g. inr (
            valid e,
            g,
            checked_then (λ p. p.1 ≡ spin_command args ∷ []) shell (spin_command args) [] _ _
                (λ m. refl) (λ result. refl) (λ result a ok. refl),
          )))
  where
    Q : Attempt ToolResult × List ShellCommand → Type 0
    Q p =
        (p.1 ≡ [])
        ⊎ ((validate_target args ≡ none)
            × Confirmed args.confirm (describe args) channel
            × (p.1 ≡ spin_command args ∷ []))

    valid : refuse_invalid (validate_target args) ≡ none → validate_target args ≡ none
    valid e = elim (Option-cases (validate_target args)) [
      | inl f ↦ f
      | inr (m, f) ↦ absurd (ground arith)
    ]

-- A call sends nothing, or its target is valid, it is confirmed and it sends its one command. To the shell
-- that command is the binary and its one or two arguments: the target is one word of it, although it is
-- not quoted.
pub disk_spin_lem :
    (shell : ShellExecutor) (channel : Option ElicitationChannel) (args : DiskSpinArgs)
    → let sent = (disk_spin (some shell) channel args []).1 in
      (sent ≡ [])
      ⊎ ((validate_target args ≡ none)
          × Confirmed args.confirm (describe args) channel
          × (words (build_command args) ≡ some (intended args.action args.disk args.device))
          × (sent ≡ spin_command args ∷ []))
unfolding validate_target build_command
disk_spin_lem shell channel args = elim (disk_spin-Sends shell channel args) [
  | inl e ↦ inl e
  | inr (valid, confirmed, alone) ↦
      inr (valid, confirmed, command-words args.action args.disk args.device valid, alone)
]
