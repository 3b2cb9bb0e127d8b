-- ===== src/Tools/Share/Delete/Laws.antt =====
-- What `share_delete` sends, and what its success shows.
use better_unraid_mcp.Base.{
  ◌≡◌, refl, ◌⊎◌, inl, inr, Text, List, [], ◌∷◌, true, false, Option, none, some, Option-cases,
  List-cases, trim,
}
use better_unraid_mcp.Effects.{Attempt, returned, guarded_cases}
use better_unraid_mcp.Respond.{ToolResult}
use better_unraid_mcp.Gate.{ElicitationChannel}
use better_unraid_mcp.Gate.Laws.{RiskAccepted, risk_gated}
use better_unraid_mcp.Tools.Ssh.{ShellCommand, ShellResult, ShellExecutor, is_success}
use better_unraid_mcp.Tools.Ssh.Laws.{
  Succeeds, execute_then, success_try, no_success, no_success_error, fails_or,
}
use better_unraid_mcp.Tools.Share.Name.{validate_share_name}
use better_unraid_mcp.Tools.Share.Query.{build_edit_query}
use better_unraid_mcp.Tools.Share.Parse.{Config}
use better_unraid_mcp.Tools.Share.WriteFlow.{cfg_command, cfg_of, submit_command}
use better_unraid_mcp.Tools.Share.WriteFlow.Laws.{encoded_then, submit_then}
use better_unraid_mcp.Tools.Share.Write.{refuse_name}
use better_unraid_mcp.Tools.Share.Write.Laws.{refuse_name-none, refuse_name-error}
use better_unraid_mcp.Tools.Share.Delete.{
  ShareDeleteArgs, no_config, still_data, still_exists, entry_command, delete_query_only,
  delete_input, gone, submit_delete, unless_entry, if_configured, run_delete, delete_message,
  share_delete,
}

abbrev pub lookups : Text → List ShellCommand
lookups name = entry_command name ∷ cfg_command name ∷ []

-- The share has a configuration, and the search for a first entry in its directory printed nothing.
abbrev pub IsEmptyShare : ShellExecutor → Text → Type 0
IsEmptyShare shell name =
    ((found : ShellResult) × (cfg : Config) × (shell [] (cfg_command name) ≡ returned found)
      × (cfg_of found ≡ some cfg))
    × ((entry : ShellResult) × (shell (cfg_command name ∷ []) (entry_command name) ≡ returned entry)
        × (trim entry.stdout ≡ []))

-- The form that deletes a share.
abbrev pub IsDeleteQuery : Text → Text → Type 0
IsDeleteQuery name query =
    (full : Text) × (build_edit_query (delete_input name) ≡ some full)
    × (query ≡ delete_query_only full)

-- What is sent after the look at the configuration.
abbrev pub Deletes : ShellExecutor → Text → List ShellCommand → Type 0
Deletes shell name sent =
    (sent ≡ cfg_command name ∷ [])
    ⊎ ((sent ≡ lookups name)
        ⊎ (IsEmptyShare shell name
            × ((query : Text) × IsDeleteQuery name query
                × ((sent ≡ submit_command query ∷ lookups name)
                    ⊎ (Succeeds shell (lookups name) (submit_command query)
                        × (sent ≡ cfg_command name ∷ submit_command query ∷ lookups name))))))

run_delete-Deletes :
    (shell : ShellExecutor) (name : Text) → Deletes shell name (run_delete shell name []).1
unfolding run_delete if_configured unless_entry submit_delete
run_delete-Deletes shell name =
    execute_then Q shell (cfg_command name) [] _ (λ m. inl refl)
      (λ found a. elim (Option-cases (cfg_of found)) [
        | inl e ↦ rw (e, if_configured) (inl refl)
        | inr (cfg, e) ↦
            rw (e, if_configured)
              (execute_then Q shell (entry_command name) (cfg_command name ∷ []) _
                (λ m. inr (inl refl))
                (λ entry b. elim (List-cases (trim entry.stdout)) [
                  | inr (c, rest, f) ↦ rw (f, unless_entry) (inr (inl refl))
                  | inl f ↦ rw (f, unless_entry) (submits ((found, cfg, a, e), (entry, b, f)))
                ]))
      ])
  where
    Q : Attempt ToolResult × List ShellCommand → Type 0
    Q p = Deletes shell name p.1

    submits : IsEmptyShare shell name → Q (submit_delete shell name (lookups name))
    submits empty =
        encoded_then Q (build_edit_query (delete_input name)) (lookups name) _ (λ m. inr (inl refl))
          (λ full e.
            let query = delete_query_only full in
            let form : IsDeleteQuery name query = (full, e, refl) in
            submit_then Q shell query (lookups name) _
              (λ m. inr (inr (empty, (query, form, inl refl))))
              (λ r f. inr (inr (empty, (query, form, inl refl))))
              (λ done.
                execute_then Q shell (cfg_command name) (submit_command query ∷ lookups name) _
                  (λ m. inr (inr (empty, (query, form, inr (done, refl)))))
                  (λ s b. inr (inr (empty, (query, form, inr (done, refl)))))))

share_delete-Deletes :
    (shell : ShellExecutor) (channel : Option ElicitationChannel) (args : ShareDeleteArgs)
    → let sent = (share_delete (some shell) channel args []).1 in
      (sent ≡ [])
      ⊎ ((validate_share_name args.name ≡ none)
          × RiskAccepted args.flags (delete_message args.name) channel
          × Deletes shell args.name sent)
unfolding share_delete
share_delete-Deletes shell channel args =
    guarded_cases Q (refuse_name (validate_share_name args.name)) _ [] (λ r e. inl refl)
      (λ e.
        risk_gated Q args.flags (delete_message args.name) channel _ [] (λ r g. inl refl)
          (λ g. inr (
            refuse_name-none (validate_share_name args.name) e,
            g,
            run_delete-Deletes shell args.name,
          )))
  where
    Q : Attempt ToolResult × List ShellCommand → Type 0
    Q p =
        (p.1 ≡ [])
        ⊎ ((validate_share_name args.name ≡ none)
            × RiskAccepted args.flags (delete_message args.name) channel
            × Deletes shell args.name p.1)

-- The delete form was accepted for an empty share, and then its configuration could not be read.
abbrev pub Gone : ShellExecutor → Text → Type 0
Gone shell name =
    IsEmptyShare shell name
    × ((query : Text) × IsDeleteQuery name query
        × Succeeds shell (lookups name) (submit_command query)
        × ((after : ShellResult) × (shell (submit_command query ∷ lookups name) (cfg_command name)
              ≡ returned after)
            × (cfg_of after ≡ none)))

gone_success :
    (name : Text) (cfg : Option Config) → is_success (returned (gone name cfg)) ≡ true → cfg ≡ none
unfolding gone still_exists
gone_success name none h = refl
gone_success name (some cfg) h = no_success h

share_delete-Gone :
    (shell : ShellExecutor) (channel : Option ElicitationChannel) (args : ShareDeleteArgs)
    → is_success (share_delete (some shell) channel args []).0 ≡ true
    → Gone shell args.name
unfolding share_delete run_delete if_configured unless_entry submit_delete no_config still_data
share_delete-Gone shell channel args =
    guarded_cases Q (refuse_name (validate_share_name args.name)) _ []
      (λ r e. no_success_error r (refuse_name-error (validate_share_name args.name) r e))
      (λ e.
        risk_gated Q args.flags (delete_message args.name) channel _ []
          (λ r g. no_success_error r g) (λ g. success_try (run_delete shell args.name) _ [] runs))
  where
    Q : Attempt ToolResult × List ShellCommand → Type 0
    Q p = is_success p.0 ≡ true → Gone shell args.name

    submits : IsEmptyShare shell args.name → Q (submit_delete shell args.name (lookups args.name))
    submits empty =
        encoded_then Q (build_edit_query (delete_input args.name)) (lookups args.name) _
          (λ m. no_success)
          (λ full e.
            submit_then Q shell (delete_query_only full) (lookups args.name) _ (λ m. no_success)
              (λ r f. no_success_error r f)
              (λ done.
                execute_then Q shell (cfg_command args.name)
                  (submit_command (delete_query_only full) ∷ lookups args.name) _ (λ m. no_success)
                  (λ after b h. (
                    empty,
                    (
                      delete_query_only full,
                      (full, e, refl),
                      done,
                      (after, b, gone_success args.name (cfg_of after) h),
                    ),
                  ))))

    runs : Q (run_delete shell args.name [])
    runs =
        execute_then Q shell (cfg_command args.name) [] _ (λ m. no_success)
          (λ found a. elim (Option-cases (cfg_of found)) [
            | inl e ↦ rw (e, if_configured) no_success
            | inr (cfg, e) ↦
                rw (e, if_configured)
                  (execute_then Q shell (entry_command args.name) (cfg_command args.name ∷ []) _
                    (λ m. no_success)
                    (λ entry b. elim (List-cases (trim entry.stdout)) [
                      | inr (c, rest, f) ↦ rw (f, unless_entry) no_success
                      | inl f ↦ rw (f, unless_entry) (submits ((found, cfg, a, e), (entry, b, f)))
                    ]))
          ])

-- A call of `share_delete` sends nothing, or its name is valid, it is authorised, and what it sends is a
-- prefix of: the look at the configuration; the search for a first entry in the share's directory, only if
-- there is a configuration; the delete form, only if the search printed nothing; the look at the
-- configuration again, only if the form was accepted. It fails, or there was a configuration, the search
-- printed nothing, the form was accepted, and the configuration could not be read afterwards.
pub share_delete_lem :
    (shell : ShellExecutor) (channel : Option ElicitationChannel) (args : ShareDeleteArgs)
    → let p = share_delete (some shell) channel args [] in
      ((p.1 ≡ [])
        ⊎ ((validate_share_name args.name ≡ none)
            × RiskAccepted args.flags (delete_message args.name) channel
            × Deletes shell args.name p.1))
      × ((is_success p.0 ≡ false) ⊎ Gone shell args.name)
share_delete_lem shell channel args =
    (share_delete-Deletes shell channel args, fails_or _ (share_delete-Gone shell channel args))
