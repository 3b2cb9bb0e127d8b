-- ===== src/Tools/Share/Write/Laws.antt =====
-- What `share_create` and `share_edit` send, and what their success shows.
use better_unraid_mcp.Base.{
  ◌≡◌, refl, ◌⊎◌, inl, inr, Text, List, [], ◌∷◌, true, Option, none, some, arith,
}
use better_unraid_mcp.Effects.{Attempt, returned, guarded_cases}
use better_unraid_mcp.Respond.{ToolResult, is_error}
use better_unraid_mcp.Tools.Ssh.{ShellCommand, ShellResult, ShellExecutor, is_success}
use better_unraid_mcp.Tools.Ssh.Laws.{execute_then, no_success, no_success_error}
use better_unraid_mcp.Tools.Share.Parse.{Config}
use better_unraid_mcp.Tools.Share.Query.{EditQueryInput}
use better_unraid_mcp.Tools.Share.WriteFlow.{
  cfg_command, cfg_of, host_command, context_of, check_against_host,
}
use better_unraid_mcp.Tools.Share.WriteFlow.Laws.{
  Applies, Verified, apply_and_verify-Applies, apply_and_verify-Verified, check_against_host-error,
}
use better_unraid_mcp.Tools.Share.Write.{ShareWriteArgs, refuse_name, create_input, submit_checked}

-- The commands that a call sends before it submits anything, the newest first.
abbrev pub lookups : ShareWriteArgs → List ShellCommand
lookups args = host_command ∷ cfg_command args.name ∷ []

-- The look at the share's configuration came back with this.
abbrev pub Found : ShellExecutor → ShareWriteArgs → Option Config → Type 0
Found shell args cfg =
    (result : ShellResult) × (shell [] (cfg_command args.name) ≡ returned result)
    × (cfg_of result ≡ cfg)

-- The host's facts allow the name and the pool.
abbrev pub Allowed : ShellExecutor → ShareWriteArgs → Type 0
Allowed shell args =
    (host : ShellResult) × (shell (cfg_command args.name ∷ []) host_command ≡ returned host)
    × (check_against_host args.name args.settings (context_of host.stdout) ≡ none)

-- After both lookups: nothing more, or the facts allow the call and the write flow runs.
abbrev pub Submits : ShellExecutor → ShareWriteArgs → EditQueryInput → List ShellCommand → Type 0
Submits shell args input sent =
    (sent ≡ lookups args) ⊎ (Allowed shell args × Applies shell input (lookups args) sent)

pub submit_checked-Submits :
    (shell : ShellExecutor) (args : ShareWriteArgs) (input : EditQueryInput)
    → Submits shell args input (submit_checked shell args input (cfg_command args.name ∷ [])).1
unfolding submit_checked
submit_checked-Submits shell args input =
    execute_then Q shell host_command (cfg_command args.name ∷ []) _ (λ m. inl refl)
      (λ host a.
        guarded_cases Q (check_against_host args.name args.settings (context_of host.stdout)) _
          (lookups args) (λ r e. inl refl)
          (λ e. inr ((host, a, e), apply_and_verify-Applies shell input (lookups args))))
  where
    Q : Attempt ToolResult × List ShellCommand → Type 0
    Q p = Submits shell args input p.1

pub submit_checked-Verified :
    (shell : ShellExecutor) (args : ShareWriteArgs) (input : EditQueryInput)
    → is_success (submit_checked shell args input (cfg_command args.name ∷ [])).0 ≡ true
    → Allowed shell args × Verified shell input (lookups args)
unfolding submit_checked
submit_checked-Verified shell args input =
    execute_then Q shell host_command (cfg_command args.name ∷ []) _ (λ m. no_success)
      (λ host a.
        guarded_cases Q (check_against_host args.name args.settings (context_of host.stdout)) _
          (lookups args)
          (λ r e.
            no_success_error r
              (check_against_host-error args.name args.settings (context_of host.stdout) r e))
          (λ e h. ((host, a, e), apply_and_verify-Verified shell input (lookups args) h)))
  where
    Q : Attempt ToolResult × List ShellCommand → Type 0
    Q p = is_success p.0 ≡ true → Allowed shell args × Verified shell input (lookups args)

pub refuse_name-none : (o : Option Text) → refuse_name o ≡ none → o ≡ none
refuse_name-none none h = refl
refuse_name-none (some invalid) h = ground arith

pub refuse_name-error :
    (o : Option Text) (r : ToolResult) → refuse_name o ≡ some r → is_error r ≡ true
refuse_name-error none r h = ground arith
refuse_name-error (some invalid) r h = ground arith

-- What `share_create` has sent: the look at the configuration, and the rest only if there was none.
abbrev pub Creates : ShellExecutor → ShareWriteArgs → List ShellCommand → Type 0
Creates shell args sent =
    (sent ≡ cfg_command args.name ∷ [])
    ⊎ (Found shell args none × Submits shell args (create_input args) sent)
