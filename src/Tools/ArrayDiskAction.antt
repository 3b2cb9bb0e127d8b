-- ===== src/Tools/ArrayDiskAction.antt =====
-- tools/array/array-disk-action.ts: the handler of the tool `array_disk_action`.
pub mod Laws
use better_unraid_mcp.Base.{
  ℕ, suc, Text, u, ◌++◌, List, [], ◌∷◌, Bool, true, false, not, ◌&&◌, Option, none, some,
  if◌then◌else◌,
}
use better_unraid_mcp.Effects.{Action, Executor, pure, ◌>>=◌, execute, try_catch, guarded}
use better_unraid_mcp.Json.{Json, Fields, bool, num, negative, str, obj, end, field}
use better_unraid_mcp.Respond.{ToolResult, tool_error, ResponseFormat, format_response}
use better_unraid_mcp.Gate.{
  ElicitationChannel, RiskGateFlags, require_risk_acknowledgement_interactive,
}

-- The integers that `slot` may be: `negsuc n` is -(n + 1).
pub data ℤ : Type 0 where
  pos : ℕ → ℤ
  negsuc : ℕ → ℤ

-- `remove` is what an older client may still send.
pub data DiskAction : Type 0 where
  add mount unmount clear_statistics remove : DiskAction

action_name : DiskAction → Text
action_name add = u "add"
action_name mount = u "mount"
action_name unmount = u "unmount"
action_name clear_statistics = u "clear_statistics"
action_name remove = u "remove"

pub needs_stopped_array : DiskAction → Bool
needs_stopped_array add = true
needs_stopped_array _ = false

pub needs_started_array : DiskAction → Bool
needs_started_array mount = true
needs_started_array unmount = true
needs_started_array clear_statistics = true
needs_started_array _ = false

pub is_slot_action : DiskAction → Bool
is_slot_action add = true
is_slot_action _ = false

pub is_retired : DiskAction → Bool
is_retired remove = true
is_retired _ = false

retired_remove_message : Text
retired_remove_message =
    u
      "Action \"remove\" was retired by the Unraid API (4.37+): remove a disk from the array in the web UI (Main → array devices, with the array stopped). No changes were made."

pub record ArrayDiskActionArgs : Type 0 where
  pub response_format : ResponseFormat
  pub action : DiskAction
  pub id : Text
  pub slot : Option ℤ
  pub flags : RiskGateFlags

consequence : DiskAction → Text
consequence action =
    if needs_stopped_array action
    then u "changes which disks are part of the protected array — a wrong disk here risks data loss"
    else u "changes a live array disk's mount/statistics state"

pub refusal_message : ArrayDiskActionArgs → Text
refusal_message args =
    u "Refusing to "
    ++ (action_name args.action
        ++ (u " disk "
            ++ (args.id
                ++ (u ": this "
                    ++ (consequence args.action
                        ++ u
                            ". Re-call with \"confirm\": true and \"acknowledge_risk\": true to proceed. No changes were made.")))))

pub data ArrayState : Type 0 where
  disable_disk invalid_expansion new_array new_disk_too_small no_data_disks : ArrayState
  parity_not_biggest recon_disk started stopped swap_dsbl too_many_missing_disks : ArrayState

state_name : ArrayState → Text
state_name disable_disk = u "DISABLE_DISK"
state_name invalid_expansion = u "INVALID_EXPANSION"
state_name new_array = u "NEW_ARRAY"
state_name new_disk_too_small = u "NEW_DISK_TOO_SMALL"
state_name no_data_disks = u "NO_DATA_DISKS"
state_name parity_not_biggest = u "PARITY_NOT_BIGGEST"
state_name recon_disk = u "RECON_DISK"
state_name started = u "STARTED"
state_name stopped = u "STOPPED"
state_name swap_dsbl = u "SWAP_DSBL"
state_name too_many_missing_disks = u "TOO_MANY_MISSING_DISKS"

pub is_stopped : ArrayState → Bool
is_stopped stopped = true
is_stopped _ = false

pub is_started : ArrayState → Bool
is_started started = true
is_started _ = false

-- The probe of the array's state, and the four mutations.
pub data Operation : Type 0 where
  probe_state : Operation
  disk_add : Text → Option ℤ → Operation
  disk_mount disk_unmount disk_clear_stats : Text → Operation

abbrev pub Reply : Operation → Type 0
Reply probe_state = ArrayState
Reply _ = Unit {0}

pub state_precondition : DiskAction → ArrayState → Option ToolResult
state_precondition action state =
    if needs_stopped_array action && not (is_stopped state)
    then some (
        tool_error (
          u "Cannot "
          ++ (action_name action
              ++ (u " a disk while the array state is "
                  ++ (state_name state
                      ++ u
                          ": Unraid requires a STOPPED array for membership changes. Stop it first with array_action (this takes shares, containers, and VMs offline). No changes were made.")))))
    else if needs_started_array action && not (is_started state)
    then some (
        tool_error (
          u "Cannot "
          ++ (action_name action
              ++ (u " disk while the array state is "
                  ++ (state_name state
                      ++ u
                          ": this action needs a STARTED array. Start it with array_action. No changes were made.")))))
    else none

-- An action that the switch of `runDiskAction` does not know sends nothing.
run_disk_action :
    Executor Operation Reply → DiskAction → Text → Option ℤ → Action Operation (Unit {0})
run_disk_action client add id slot = do done ← execute client (disk_add id slot); pure tt
run_disk_action client mount id slot = do done ← execute client (disk_mount id); pure tt
run_disk_action client unmount id slot = do done ← execute client (disk_unmount id); pure tt
run_disk_action client clear_statistics id slot = do
  done ← execute client (disk_clear_stats id)
  pure tt
run_disk_action client remove id slot = pure tt

success_summary : ArrayDiskActionArgs → Text
success_summary args =
    u "Disk "
    ++ (action_name args.action
        ++ (u " requested for "
            ++ (args.id
                ++ u
                    ". The API returns a pre-mutation snapshot, so verify the result with array_status and disk_list.")))

number : ℤ → Json
number (pos n) = num n
number (negsuc n) = negative (suc n)

-- The member `slot`, left out when it is undefined.
slot_field : Option ℤ → Fields → Fields
slot_field none rest = rest
slot_field (some n) rest = field (u "slot") (number n) rest

after_probe :
    Executor Operation Reply → ArrayDiskActionArgs → ArrayState → Action Operation ToolResult
after_probe client args state = guarded (state_precondition args.action state) (do
  done ← run_disk_action client args.action args.id args.slot
  pure (
      format_response args.response_format (success_summary args) (
        obj (
          field (u "action") (str (action_name args.action)) (
            field (u "id") (str args.id)
              (slot_field args.slot (field (u "requested") (bool true) end)))))))

probe_and_run : Executor Operation Reply → ArrayDiskActionArgs → Action Operation ToolResult
probe_and_run client args = do state ← execute client probe_state; after_probe client args state

is_given : Option ℤ → Bool
is_given none = false
is_given (some n) = true

slot_error : Text
slot_error = u "`slot` is only valid with action \"add\". No changes were made."

-- The refusals before the first call, in their order.
pub refusal_of : ArrayDiskActionArgs → Option ElicitationChannel → Option ToolResult
unfolding is_given
refusal_of args channel =
    if is_retired args.action
    then some (tool_error retired_remove_message)
    else if is_given args.slot && not (is_slot_action args.action)
    then some (tool_error slot_error)
    else require_risk_acknowledgement_interactive args.flags (refusal_message args) channel

-- `createArrayDiskActionHandler(client, channel)(args)`
pub array_disk_action :
    Executor Operation Reply
    → Option ElicitationChannel
    → ArrayDiskActionArgs
    → Action Operation ToolResult
array_disk_action client channel args = guarded (refusal_of args channel) (
    try_catch (probe_and_run client args) (λ message. tool_error (
      u "Failed to "
      ++ (action_name args.action ++ (u " disk " ++ (args.id ++ (u ": " ++ message)))))))
