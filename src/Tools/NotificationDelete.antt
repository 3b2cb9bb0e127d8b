-- ===== src/Tools/NotificationDelete.antt =====
-- tools/notification/notification-delete.ts: the handler of the tool `notification_delete`.
pub mod Laws
use better_unraid_mcp.Base.{
  ℕ, Text, u, ◌++◌, List, [], ◌∷◌, Bool, true, false, Option, none, some, decimal,
}
use better_unraid_mcp.Effects.{Action, Executor, pure, ◌>>=◌, execute, try_catch, guarded}
use better_unraid_mcp.Json.{Json, num, obj, end, field}
use better_unraid_mcp.Respond.{ToolResult, tool_error, ResponseFormat, format_response}
use better_unraid_mcp.Gate.{ElicitationChannel, require_confirmation_interactive}

pub data Scope : Type 0 where
  one all_archived : Scope

pub data TypeInput : Type 0 where
  unread archive : TypeInput

pub record DeleteArgs : Type 0 where
  pub response_format : ResponseFormat
  pub scope : Scope
  pub id : Option Text
  pub kind : Option TypeInput
  pub confirm : Option Bool

-- The counts of one list, and of both.
pub record Counts : Type 0 where
  pub info : ℕ
  pub warning : ℕ
  pub alert : ℕ
  pub total : ℕ

pub record Overview : Type 0 where
  pub unread_counts : Counts
  pub archive_counts : Counts

pub data Operation : Type 0 where
  delete_archived : Operation
  delete_one : Text → TypeInput → Operation

abbrev pub Reply : Operation → Type 0
Reply op = Overview

scope_name : Scope → Text
scope_name one = u "one"
scope_name all_archived = u "all_archived"

pub describe_delete : Scope → Text
unfolding scope_name
describe_delete scope = u "delete notifications (" ++ (scope_name scope ++ u ")")

-- The target of a delete whose arguments are valid, or the message of `validateScope`. An empty id
-- is no id.
pub data Target : Type 0 where
  invalid : Text → Target
  every_archived : Target
  single : Text → TypeInput → Target

pub single_target : Option Text → Option TypeInput → Target
single_target (some (c ∷ cs)) (some kind) = single (c ∷ cs) kind
single_target _ _ = invalid (u "`scope: one` requires both `id` and `type`. No changes were made.")

pub archived_target : Option Text → Option TypeInput → Target
archived_target none none = every_archived
archived_target (some []) none = every_archived
archived_target _ _ =
    invalid (u "`scope: all_archived` takes no `id`/`type`. No changes were made.")

pub target_for : Scope → Option Text → Option TypeInput → Target
unfolding single_target archived_target
target_for one id kind = single_target id kind
target_for all_archived id kind = archived_target id kind

pub validate_scope : DeleteArgs → Target
validate_scope args = target_for args.scope args.id args.kind

summarize : Scope → Overview → Text
summarize scope overview =
    u "Deleted "
    ++ ((elim scope [ one ↦ u "1 notification" | all_archived ↦ u "all archived notifications" ])
        ++ (u "; now "
            ++ (decimal overview.unread_counts.total
                ++ (u " unread / " ++ (decimal overview.archive_counts.total ++ u " archived.")))))

counts_json : Counts → Json
counts_json c = obj (
    field (u "info") (num c.info) (
      field (u "warning") (num c.warning)
        (field (u "alert") (num c.alert) (field (u "total") (num c.total) end))))

pub overview_json : Overview → Json
unfolding counts_json
overview_json overview = obj (
    field (u "unread") (counts_json overview.unread_counts)
      (field (u "archive") (counts_json overview.archive_counts) end))

delete_with : Executor Operation Reply → DeleteArgs → Operation → Action Operation ToolResult
unfolding summarize overview_json
delete_with client args op =
    try_catch
      (do
        overview ← execute client op
        pure (
            format_response args.response_format (summarize args.scope overview)
              (obj (field (u "overview") (overview_json overview) end))))
      (λ message. tool_error (u "Failed to delete notifications: " ++ message))

-- `runDelete` for a valid target, or the refusal.
run_delete : Executor Operation Reply → DeleteArgs → Target → Action Operation ToolResult
unfolding delete_with
run_delete client args (invalid message) = pure (tool_error message)
run_delete client args every_archived = delete_with client args delete_archived
run_delete client args (single id kind) = delete_with client args (delete_one id kind)

-- `createNotificationDeleteHandler(client, channel)(args)`
pub notification_delete :
    Executor Operation Reply → Option ElicitationChannel → DeleteArgs → Action Operation ToolResult
unfolding run_delete
notification_delete client channel args =
    guarded (require_confirmation_interactive args.confirm (describe_delete args.scope) channel)
      (run_delete client args (validate_scope args))
