-- ===== src/Tools/DockerAutostartSet.antt =====
-- tools/docker/autostart-set.ts: the handler of the tool `docker_autostart_set`. Waits and positions
-- are natural numbers, as the input schema and the API have them.
pub mod Merged
pub mod Order
pub mod Laws
use better_unraid_mcp.Base.{
  ℕ, zero, suc, ◌≡◌, Text, u, ◌++◌, List, [], ◌∷◌, map, Bool, true, false, not, ◌||◌, Option, none,
  some, text_eq, join, decimal, starts_with, drop, leb, member, filter_b, if◌then◌else◌,
}
use better_unraid_mcp.Effects.{Action, Executor, pure, ◌>>=◌, execute, try_catch, guarded}
use better_unraid_mcp.Json.{Json, null, bool, num, str, arr, obj, Items, nil, cons, end, field}
use better_unraid_mcp.Respond.{ToolResult, tool_error, ResponseFormat, format_response}
use better_unraid_mcp.Gate.{ElicitationChannel, require_confirmation_interactive}

pub record Change : Type 0 where
  pub id : Text
  pub auto_start : Bool
  pub wait : Option ℕ

pub record Container : Type 0 where
  pub id : Text
  pub names : List Text
  pub auto_start : Bool
  pub auto_start_wait : Option ℕ
  pub auto_start_order : Option ℕ

pub record MergedEntry : Type 0 where
  pub id : Text
  pub auto_start : Bool
  pub wait : Option ℕ
  pub order : Option ℕ

-- `DockerAutostartEntryInput`
pub record EntryInput : Type 0 where
  pub id : Text
  pub auto_start : Bool
  pub wait : Option ℕ

pub record AutostartArgs : Type 0 where
  pub response_format : ResponseFormat
  pub changes : List Change
  pub persist : Bool
  pub confirm : Option Bool

-- `DockerAutostartStateDocument`, and `DockerSetAutostartDocument` with its variables.
pub data Operation : Type 0 where
  read_state : Operation
  set_autostart : List EntryInput → Bool → Operation

abbrev pub Reply : Operation → Type 0
Reply read_state = List Container
Reply (set_autostart entries persist) = Bool

abbrev pub change_ids : List Change → List Text
change_ids [] = []
change_ids (change ∷ changes) = change.id ∷ change_ids changes

abbrev pub container_ids : List Container → List Text
container_ids [] = []
container_ids (c ∷ containers) = c.id ∷ container_ids containers

-- The ids that stand in the list before, with those that were passed in `seen`.
pub repeated : List Text → List Text → List Text
repeated seen [] = []
repeated seen (id ∷ ids) =
    if member id seen then id ∷ repeated (id ∷ seen) ids else repeated (id ∷ seen) ids

-- `[...new Set(ids)]`
once : List Text → List Text → List Text
once seen [] = []
once seen (id ∷ ids) = if member id seen then once seen ids else id ∷ once (id ∷ seen) ids

pub missing : List Text → List Text → List Text
missing known [] = []
missing known (id ∷ ids) = if member id known then missing known ids else id ∷ missing known ids

refuse_unknown : List Text → Option Text
refuse_unknown [] = none
refuse_unknown unknown =
    some (u "Unknown container id(s): " ++ (join (u ", ") unknown ++ u ". No changes were made."))

refuse_ids : List Text → List Text → Option Text
unfolding refuse_unknown
refuse_ids [] unknown = refuse_unknown unknown
refuse_ids duplicates unknown = some (
    u "Duplicate container id(s) in changes: "
    ++ (join (u ", ") duplicates ++ u ". No changes were made."))

pub validate_changes : List Change → List Container → Option Text
unfolding refuse_ids once
validate_changes changes containers =
    let ids = change_ids changes in
    refuse_ids (once [] (repeated [] ids)) (missing (container_ids containers) ids)

-- `a ?? b`
pub first_of : {A : Type 0} → Option A → Option A → Option A
first_of (some a) b = some a
first_of none b = b

pub merge_entry : Container → Option Change → MergedEntry
unfolding first_of
merge_entry c none = record {
  id = c.id;
  auto_start = c.auto_start;
  wait = c.auto_start_wait;
  order = c.auto_start_order;
}
merge_entry c (some change) = record {
  id = c.id;
  auto_start = change.auto_start;
  wait = first_of change.wait c.auto_start_wait;
  order = c.auto_start_order;
}

-- `compareByOrder(a, b) <= 0`
pub order_le : Option ℕ → Option ℕ → Bool
order_le none none = true
order_le none (some b) = false
order_le (some a) none = true
order_le (some a) (some b) = leb a b

-- The stable sort by `compareByOrder`.
insert_by_order : MergedEntry → List MergedEntry → List MergedEntry
insert_by_order e [] = e ∷ []
insert_by_order e (f ∷ entries) =
    let rest = insert_by_order e entries in
    if order_le e.order f.order then e ∷ f ∷ entries else f ∷ rest

pub sort_by_order : List MergedEntry → List MergedEntry
unfolding insert_by_order
sort_by_order [] = []
sort_by_order (e ∷ entries) = insert_by_order e (sort_by_order entries)

-- `changeById.get(id)`: of several changes with one id the map keeps the last.
pub change_by_id : List Change → Text → Option Change
change_by_id [] id = none
change_by_id (change ∷ changes) id =
    first_of (change_by_id changes id) (if text_eq change.id id then some change else none)

pub merge_all : List Container → List Change → List MergedEntry
merge_all [] changes = []
merge_all (c ∷ containers) changes =
    merge_entry c (change_by_id changes c.id) ∷ merge_all containers changes

pub entry_input : MergedEntry → EntryInput
entry_input e = record { id = e.id; auto_start = e.auto_start; wait = e.wait }

pub build_entries : List Container → List Change → List EntryInput
unfolding merge_all
build_entries containers changes = map entry_input (sort_by_order (merge_all containers changes))

strip_leading_slash : Text → Text
strip_leading_slash name = if starts_with name (u "/") then drop 1 name else name

display_name : Container → Text
unfolding strip_leading_slash
display_name c = elim c.names [ [] ↦ c.id | name ∷ names ↦ strip_leading_slash name ]

-- `nameById.get(id) ?? id`; of several containers with one id the map keeps the last.
name_by_id : List Container → Text → Text → Text
unfolding display_name
name_by_id [] id fallback = fallback
name_by_id (c ∷ containers) id fallback =
    name_by_id containers id (if text_eq c.id id then display_name c else fallback)

wait_text : Bool → Option ℕ → Text
wait_text true (some (suc n)) = u " (wait " ++ (decimal (suc n) ++ u "s)")
wait_text _ _ = []

describe_change : Change → Text → Text
unfolding wait_text
describe_change change name =
    name
    ++ (u " "
        ++ ((if change.auto_start then u "ON" else u "OFF")
            ++ wait_text change.auto_start change.wait))

describe_all : List Container → List Change → List Text
unfolding describe_change name_by_id
describe_all containers [] = []
describe_all containers (change ∷ changes) =
    describe_change change (name_by_id containers change.id change.id)
    ∷ describe_all containers changes

detail_changes : List Change → List Container → Items
unfolding name_by_id
detail_changes [] containers = nil
detail_changes (change ∷ changes) containers =
    cons
      (obj (
        field (u "id") (str change.id) (
          field (u "name") (str (name_by_id containers change.id change.id)) (
            field (u "autoStart") (bool change.auto_start)
              (field (u "wait") (elim change.wait [ none ↦ null | some n ↦ num n ]) end)))))
      (detail_changes changes containers)

summarize : Bool → List Change → List Container → Bool → Text
unfolding describe_all
summarize false changes containers persist =
    u "Autostart not updated (the API returned false); no boot-time change took effect."
summarize true changes containers persist =
    u "Autostart updated: "
    ++ (join (u ", ") (describe_all containers changes)
        ++ (u " — "
            ++ ((if persist then u "autostart file + WebGUI prefs" else u "autostart file only")
                ++ u "; effective next array/Docker start.")))

write_entries :
    Executor Operation Reply
    → AutostartArgs
    → List Container
    → Option Text
    → Action Operation ToolResult
unfolding summarize detail_changes
write_entries client args containers (some refusal) = pure (tool_error refusal)
write_entries client args containers none = do
  ok ← execute client (set_autostart (build_entries containers args.changes) args.persist)
  pure (
      format_response args.response_format (summarize ok args.changes containers args.persist) (
        obj (
          field (u "ok") (bool ok) (
            field (u "persisted") (bool args.persist)
              (field (u "changes") (arr (detail_changes args.changes containers)) end)))))

-- The body of the handler's `try`.
read_and_write : Executor Operation Reply → AutostartArgs → Action Operation ToolResult
unfolding write_entries
read_and_write client args = do
  containers ← execute client read_state
  write_entries client args containers (validate_changes args.changes containers)

-- `createDockerAutostartSetHandler(client, channel)(args)`
pub docker_autostart_set :
    Executor Operation Reply
    → Option ElicitationChannel
    → AutostartArgs
    → Action Operation ToolResult
unfolding read_and_write
docker_autostart_set client channel args =
    guarded
      (require_confirmation_interactive args.confirm (u "change Docker autostart configuration")
        channel)
      (try_catch (read_and_write client args)
        (λ message. tool_error (u "Failed to update Docker autostart: " ++ message)))
