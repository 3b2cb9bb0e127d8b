-- ===== src/Tools/NotificationArchive.antt =====
-- tools/notification/notification-archive.ts: the handler of the tool `notification_archive`.
pub mod Laws
use better_unraid_mcp.Base.{
  ℕ, Text, u, ◌++◌, List, [], ◌∷◌, Bool, true, false, Option, none, some, decimal, length, is_true,
  if◌then◌else◌,
}
use better_unraid_mcp.Effects.{Action, Executor, pure, ◌>>=◌, execute, try_catch}
use better_unraid_mcp.Json.{Json, null, bool, str, arr, obj, Items, nil, cons, end, field}
use better_unraid_mcp.Respond.{ToolResult, tool_error, ResponseFormat, format_response}
use better_unraid_mcp.Tools.NotificationDelete.{Overview, overview_json}

pub data Direction : Type 0 where
  archive unarchive : Direction

pub data ImportanceInput : Type 0 where
  alert warning info : ImportanceInput

pub record ArchiveArgs : Type 0 where
  pub response_format : ResponseFormat
  pub direction : Direction
  pub ids : Option (List Text)
  pub all : Option Bool
  pub importance : Option ImportanceInput

-- The four mutations with their variables.
pub data Operation : Type 0 where
  archive_ids unarchive_ids : List Text → Operation
  archive_all unarchive_all : Option ImportanceInput → Operation

abbrev pub Reply : Operation → Type 0
Reply op = Overview

direction_name : Direction → Text
direction_name archive = u "archive"
direction_name unarchive = u "unarchive"

importance_to_api : ImportanceInput → Text
importance_to_api alert = u "ALERT"
importance_to_api warning = u "WARNING"
importance_to_api info = u "INFO"

-- The argument's own spelling.
importance_name : ImportanceInput → Text
importance_name alert = u "alert"
importance_name warning = u "warning"
importance_name info = u "info"

pub has_ids : Option (List Text) → Bool
has_ids (some (id ∷ ids)) = true
has_ids _ = false

is_given : {A : Type 0} → Option A → Bool
is_given none = false
is_given (some a) = true

same : Bool → Bool → Bool
same true b = b
same false true = false
same false false = true

pub validate_target : ArchiveArgs → Option Text
unfolding has_ids is_given same
validate_target args =
    if same (has_ids args.ids) (is_true args.all)
    then some (u "Specify exactly one of `ids` (non-empty) or `all: true`. No changes were made.")
    else if is_given args.importance
    then if is_true args.all
      then none
      else some (u "`importance` is only valid with `all: true`. No changes were made.")
    else none

pub run_ids : Direction → List Text → Operation
run_ids archive ids = archive_ids ids
run_ids unarchive ids = unarchive_ids ids

pub run_all : Direction → Option ImportanceInput → Operation
run_all archive importance = archive_all importance
run_all unarchive importance = unarchive_all importance

-- `args.ids ? runIds(…) : runAll(…)`
pub target_operation : ArchiveArgs → Operation
unfolding run_ids run_all
target_operation args = elim args.ids [
  | some ids ↦ run_ids args.direction ids
  | none ↦ run_all args.direction args.importance
]

per_id_caveat : Text
per_id_caveat =
    u
      "The API does not report per-id outcomes (an unknown or wrong-bucket id silently succeeds), so check notification_list."

scope_of : Option ImportanceInput → Text
scope_of none = []
scope_of (some importance) = u " " ++ importance_to_api importance

summarize : ArchiveArgs → Text
unfolding scope_of
summarize args = elim args.ids [
  | some ids ↦
      u "Requested "
      ++ (direction_name args.direction
          ++ (u " of " ++ (decimal (length ids) ++ (u " notification(s). " ++ per_id_caveat))))
  | none ↦
      u "Requested "
      ++ (direction_name args.direction
          ++ (u " of all"
              ++ (scope_of args.importance ++ u " notifications; verify with notification_list.")))
]

id_items : List Text → Items
id_items [] = nil
id_items (id ∷ ids) = cons (str id) (id_items ids)

requested_json : ArchiveArgs → Json
unfolding id_items importance_name
requested_json args = obj (
    field (u "direction") (str (direction_name args.direction)) (
      field (u "ids") (elim args.ids [ none ↦ null | some ids ↦ arr (id_items ids) ])
        (field (u "all") (bool (is_true args.all)) (
          field (u "importance")
            (elim args.importance [ none ↦ null | some i ↦ str (importance_name i) ]) end))))

-- The rest of the handler, after `validateTarget`.
run_archive : Executor Operation Reply → ArchiveArgs → Option Text → Action Operation ToolResult
unfolding summarize requested_json
run_archive client args (some message) = pure (tool_error message)
run_archive client args none =
    try_catch
      (do
        overview ← execute client (target_operation args)
        pure (
            format_response args.response_format (summarize args) (
              obj (
                field (u "requested") (requested_json args)
                  (field (u "serverOverview") (overview_json overview) end)))))
      (λ message.
        tool_error
          (u "Failed to " ++ (direction_name args.direction ++ (u " notifications: " ++ message))))

-- `createNotificationArchiveHandler(client)(args)`
pub notification_archive : Executor Operation Reply → ArchiveArgs → Action Operation ToolResult
unfolding run_archive
notification_archive client args = run_archive client args (validate_target args)
