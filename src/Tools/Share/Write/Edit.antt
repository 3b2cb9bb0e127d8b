-- ===== src/Tools/Share/Write/Edit.antt =====
-- What `share_edit` sends, and what its success shows.
use better_unraid_mcp.Base.{
  ◌≡◌, refl, ◌⊎◌, inl, inr, List, [], ◌∷◌, true, false, Option, none, some, Option-cases,
}
use better_unraid_mcp.Effects.{Attempt, guarded_cases}
use better_unraid_mcp.Respond.{ToolResult, is_error}
use better_unraid_mcp.Gate.{ElicitationChannel}
use better_unraid_mcp.Gate.Laws.{RiskAccepted, risk_gated}
use better_unraid_mcp.Tools.Ssh.{ShellCommand, ShellExecutor, is_success, refuse_unless}
use better_unraid_mcp.Tools.Ssh.Laws.{
  execute_then, success_try, no_success, no_success_error, fails_or, refuse_unless-none,
  refuse_unless-error,
}
use better_unraid_mcp.Tools.Share.Parse.{Config}
use better_unraid_mcp.Tools.Share.Name.{validate_share_name}
use better_unraid_mcp.Tools.Share.WriteFlow.{cfg_command, cfg_of}
use better_unraid_mcp.Tools.Share.WriteFlow.Laws.{Verified}
use better_unraid_mcp.Tools.Share.Write.{
  ShareWriteArgs, refuse_name, nothing_to_change, edit_input, edit_if, run_edit, has_changes,
  edit_message, share_edit,
}
use better_unraid_mcp.Tools.Share.Write.Laws.{
  Found, Allowed, Submits, lookups, submit_checked-Submits, submit_checked-Verified,
  refuse_name-none, refuse_name-error,
}

-- What `share_edit` has sent: the look at the configuration, and the rest only if there is one, whose
-- settings the form then carries on.
abbrev pub Edits : ShellExecutor → ShareWriteArgs → List ShellCommand → Type 0
Edits shell args sent =
    (sent ≡ cfg_command args.name ∷ [])
    ⊎ ((current : Config) × Found shell args (some current)
        × Submits shell args (edit_input args current) sent)

run_edit-Edits :
    (shell : ShellExecutor) (args : ShareWriteArgs) → Edits shell args (run_edit shell args []).1
unfolding run_edit edit_if
run_edit-Edits shell args =
    execute_then (λ p. Edits shell args p.1) shell (cfg_command args.name) [] _ (λ m. inl refl)
      (λ found a. elim (Option-cases (cfg_of found)) [
        | inl e ↦ rw (e, edit_if) (inl refl)
        | inr (cfg, e) ↦
            rw (e, edit_if)
              (inr (cfg, (found, a, e), submit_checked-Submits shell args (edit_input args cfg)))
      ])

share_edit-Edits :
    (shell : ShellExecutor) (channel : Option ElicitationChannel) (args : ShareWriteArgs)
    → let sent = (share_edit (some shell) channel args []).1 in
      (sent ≡ [])
      ⊎ ((validate_share_name args.name ≡ none)
          × (has_changes args.settings ≡ true)
          × RiskAccepted args.flags (edit_message args.name) channel
          × Edits shell args sent)
unfolding share_edit
share_edit-Edits shell channel args =
    guarded_cases Q (refuse_name (validate_share_name args.name)) _ [] (λ r e. inl refl)
      (λ e.
        guarded_cases Q (refuse_unless (has_changes args.settings) nothing_to_change) _ []
          (λ r f. inl refl)
          (λ f.
            risk_gated Q args.flags (edit_message args.name) channel _ [] (λ r g. inl refl)
              (λ g. inr (
                refuse_name-none (validate_share_name args.name) e,
                refuse_unless-none (has_changes args.settings) nothing_to_change f,
                g,
                run_edit-Edits shell args,
              ))))
  where
    Q : Attempt ToolResult × List ShellCommand → Type 0
    Q p =
        (p.1 ≡ [])
        ⊎ ((validate_share_name args.name ≡ none)
            × (has_changes args.settings ≡ true)
            × RiskAccepted args.flags (edit_message args.name) channel
            × Edits shell args p.1)

nothing_to_change-error : is_error nothing_to_change ≡ true
unfolding nothing_to_change
nothing_to_change-error = refl

share_edit-Verified :
    (shell : ShellExecutor) (channel : Option ElicitationChannel) (args : ShareWriteArgs)
    → is_success (share_edit (some shell) channel args []).0 ≡ true
    → (current : Config) × Found shell args (some current)
      × Allowed shell args
      × Verified shell (edit_input args current) (lookups args)
unfolding share_edit run_edit edit_if
share_edit-Verified shell channel args =
    guarded_cases Q (refuse_name (validate_share_name args.name)) _ []
      (λ r e. no_success_error r (refuse_name-error (validate_share_name args.name) r e))
      (λ e.
        guarded_cases Q (refuse_unless (has_changes args.settings) nothing_to_change) _ []
          (λ r f. no_success_error r (
            refuse_unless-error (has_changes args.settings) nothing_to_change r
              nothing_to_change-error f))
          (λ f.
            risk_gated Q args.flags (edit_message args.name) channel _ []
              (λ r g. no_success_error r g) (λ g. success_try (run_edit shell args) _ [] runs)))
  where
    Q : Attempt ToolResult × List ShellCommand → Type 0
    Q p =
        is_success p.0 ≡ true
        → (current : Config) × Found shell args (some current)
          × Allowed shell args
          × Verified shell (edit_input args current) (lookups args)

    runs : Q (run_edit shell args [])
    runs =
        execute_then Q shell (cfg_command args.name) [] _ (λ m. no_success)
          (λ found a. elim (Option-cases (cfg_of found)) [
            | inl f ↦ rw (f, edit_if) no_success
            | inr (cfg, f) ↦
                rw (f, edit_if)
                  (λ h.
                    let (allowed, verified) =
                      submit_checked-Verified shell args (edit_input args cfg) h in
                    (cfg, (found, a, f), allowed, verified))
          ])

-- A call of `share_edit` sends nothing, or its name is valid, it asks for at least one setting, it is
-- authorised, and what it sends is a prefix of: the look at the configuration; the look at the host's
-- facts, only if there is a configuration; the edit form over that configuration, only if the facts allow
-- it; the SMB form, only if one of its settings is asked for and the edit form was accepted; the look at
-- the configuration again. It fails, or the share had a configuration, the host's facts allow the change,
-- the form over that configuration was accepted, and every requested setting stands in the configuration
-- that was read back afterwards.
pub share_edit_lem :
    (shell : ShellExecutor) (channel : Option ElicitationChannel) (args : ShareWriteArgs)
    → let p = share_edit (some shell) channel args [] in
      ((p.1 ≡ [])
        ⊎ ((validate_share_name args.name ≡ none)
            × (has_changes args.settings ≡ true)
            × RiskAccepted args.flags (edit_message args.name) channel
            × Edits shell args p.1))
      × ((is_success p.0 ≡ false)
          ⊎ ((current : Config) × Found shell args (some current)
              × Allowed shell args
              × Verified shell (edit_input args current) (lookups args)))
share_edit_lem shell channel args =
    (share_edit-Edits shell channel args, fails_or _ (share_edit-Verified shell channel args))
