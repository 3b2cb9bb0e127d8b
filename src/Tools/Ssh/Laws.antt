-- ===== src/Tools/Ssh/Laws.antt =====
-- Reasoning about a handler that runs commands, one command at a time, for any property of what the
-- handler returns and of the commands that it has sent.
use better_unraid_mcp.Base.{
  none, some, ◌⊎◌, inl, inr, Text, List, ◌∷◌, ◌≡◌, refl, Bool, true, false, arith,
}
use better_unraid_mcp.Effects.{
  Attempt, returned, thrown, Action, resume, ◌>>=◌, execute, guarded, try_catch, handled,
}
use better_unraid_mcp.Respond.{ToolResult, tool_text, tool_error, is_error}
use better_unraid_mcp.Tools.Ssh.{
  ShellCommand, ShellResult, ShellExecutor, succeeded, refuse_unless, is_success,
}

-- A command and what follows it: either it fails, or what follows runs on its result.
pub execute_then {ℓ} :
    {A : Type 0} (Q : Attempt A × List ShellCommand → Type ℓ) (shell : ShellExecutor)
    (op : ShellCommand) (sent : List ShellCommand) (rest : ShellResult → Action ShellCommand A)
    → ((message : Text) → Q (thrown message, op ∷ sent))
    → ((result : ShellResult) → shell sent op ≡ returned result → Q (rest result (op ∷ sent)))
    → Q ((execute shell op >>= rest) sent)
execute_then {A} Q shell op sent rest fails goes = cases (shell sent op) refl
  where
    cases :
        (reply : Attempt ShellResult) → shell sent op ≡ reply → Q (resume reply (op ∷ sent) rest)
    cases (returned result) e = goes result e
    cases (thrown message) e = fails message

-- The command ran and exited with code 0.
abbrev pub Succeeds : ShellExecutor → List ShellCommand → ShellCommand → Type 0
Succeeds shell sent op =
    (result : ShellResult) × (shell sent op ≡ returned result) × (succeeded result ≡ true)

-- A command whose failure ends the handler, and what follows it.
pub checked_then {ℓ} :
    (Q : Attempt ToolResult × List ShellCommand → Type ℓ) (shell : ShellExecutor)
    (op : ShellCommand) (sent : List ShellCommand) (refusal : ShellResult → ToolResult)
    (rest : ShellResult → Action ShellCommand ToolResult)
    → ((message : Text) → Q (thrown message, op ∷ sent))
    → ((result : ShellResult) → Q (returned (refusal result), op ∷ sent))
    → ((result : ShellResult)
        → shell sent op ≡ returned result
        → succeeded result ≡ true
        → Q (rest result (op ∷ sent)))
    → Q (
        (execute shell op >>= λ result.
        guarded (refuse_unless (succeeded result) (refusal result)) (rest result))
          sent)
checked_then Q shell op sent refusal rest fails refused goes =
    execute_then Q shell op sent _ fails (λ result e. cases result e (succeeded result) refl)
  where
    cases :
        (result : ShellResult)
        → shell sent op ≡ returned result
        → (ok : Bool) → succeeded result ≡ ok
        → Q (guarded (refuse_unless ok (refusal result)) (rest result) (op ∷ sent))
    cases result e true s = goes result e s
    cases result e false s = refused result

-- Under a `catch` that answers with an error, what a success shows is shown by the body's success.
pub success_try {ℓ} :
    {V : Type ℓ} (m : Action ShellCommand ToolResult) (message : Text → Text)
    (sent : List ShellCommand)
    → (is_success (m sent).0 ≡ true → V)
    → is_success (try_catch m (λ error. tool_error (message error)) sent).0 ≡ true
    → V
success_try {V} m message sent shows = cases (m sent).0 shows
  where
    cases :
        (r : Attempt ToolResult)
        → (is_success r ≡ true → V)
        → is_success (returned (handled (λ error. tool_error (message error)) r)) ≡ true
        → V
    cases (returned result) f h = f h
    cases (thrown error) f h = ground arith

-- Failures are no successes.
pub no_success {ℓ} : {V : Type ℓ} → false ≡ true → V
no_success h = absurd (ground arith)

pub no_success_error {ℓ} :
    {V : Type ℓ} (result : ToolResult)
    → is_error result ≡ true
    → is_success (returned result) ≡ true
    → V
no_success_error (tool_text text) e h = absurd (ground arith)
no_success_error (tool_error message) e h = absurd (ground arith)

pub refuse_unless-none :
    (b : Bool) (refusal : ToolResult) → refuse_unless b refusal ≡ none → b ≡ true
refuse_unless-none true refusal h = refl
refuse_unless-none false refusal h = ground arith

pub refuse_unless-error :
    (b : Bool) (refusal r : ToolResult)
    → is_error refusal ≡ true
    → refuse_unless b refusal ≡ some r
    → is_error r ≡ true
refuse_unless-error true refusal r h e = ground arith
refuse_unless-error false refusal r h e = ground arith

-- Either the result is a failure, or it is what a success shows.
pub fails_or {ℓ} : {V : Type ℓ} (b : Bool) → (b ≡ true → V) → (b ≡ false) ⊎ V
fails_or true f = inr (f refl)
fails_or false f = inl refl
