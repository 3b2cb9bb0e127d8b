-- ===== src/Tools/ArrayAction.antt =====
-- tools/array/array-action.ts: the handler of the tool `array_action`.
pub mod Laws
use better_unraid_mcp.Base.{
  Text, u, ◌++◌, List, [], ◌∷◌, Bool, true, false, Option, none, some, includes, if◌then◌else◌,
}
use better_unraid_mcp.Effects.{Action, Executor, pure, ◌>>=◌, execute, try_catch, guarded}
use better_unraid_mcp.Json.{Json, str, obj, end, field}
use better_unraid_mcp.Respond.{ToolResult, tool_error, ResponseFormat, format_response}
use better_unraid_mcp.Gate.{
  ElicitationChannel, RiskGateFlags, require_confirmation_interactive,
  require_risk_acknowledgement_interactive,
}

pub data ArrayAction : Type 0 where
  start stop : ArrayAction

action_name : ArrayAction → Text
action_name start = u "start"
action_name stop = u "stop"

pub data ArrayStateInputState : Type 0 where
  state_start state_stop : ArrayStateInputState

pub desired_state : ArrayAction → ArrayStateInputState
desired_state start = state_start
desired_state stop = state_stop

requested_summary : ArrayAction → Text
requested_summary start =
    u "Array start requested. Run array_status to confirm — state reads may lag a few seconds."
requested_summary stop =
    u
      "Array stop requested — Unraid is taking every share, Docker container, and VM offline. Run array_status to confirm — state reads may lag a few seconds."

unfoldable pub already_in_state_message : ArrayAction → Text
already_in_state_message start = u "The array is already STARTED"
already_in_state_message stop = u "The array is already STOPPED"

pub change_in_flight_message : Text
change_in_flight_message = u "Array state is still being updated"

pub state_not_loaded_message : Text
state_not_loaded_message = u "state was not loaded"

no_op_summary : ArrayAction → Text
no_op_summary start = u "Unraid reports the array is already STARTED — no action was taken."
no_op_summary stop =
    u
      "Unraid reports the array is already stopped — or it is in an error state where stop does not apply (the API reports both the same way). Run array_status to see the actual state. No changes were made."

pub record ArrayActionArgs : Type 0 where
  pub response_format : ResponseFormat
  pub action : ArrayAction
  pub flags : RiskGateFlags

-- `ArraySetStateDocument` with its input, answered by `data.array.setState.state`.
pub data Operation : Type 0 where
  set_state : ArrayStateInputState → Operation

abbrev pub Reply : Operation → Type 0
Reply (set_state desired) = Text

pub stop_message : Text
stop_message =
    u
      "Refusing to stop the array: Unraid will take every share, Docker container, and VM offline until the array is started again. Re-call with \"confirm\": true and \"acknowledge_risk\": true to proceed. No changes were made."

pub start_description : Text
unfolding action_name
start_description = action_name start ++ u " the array"

gate_for : ArrayAction → RiskGateFlags → Option ElicitationChannel → Option ToolResult
gate_for start flags channel =
    require_confirmation_interactive flags.confirm start_description channel
gate_for stop flags channel = require_risk_acknowledgement_interactive flags stop_message channel

pub gate_refusal : ArrayActionArgs → Option ElicitationChannel → Option ToolResult
unfolding gate_for
gate_refusal args channel = gate_for args.action args.flags channel

-- The payload of a known outcome.
outcome_of : ArrayAction → Text → Text → Json
outcome_of action outcome message = obj (
    field (u "requested") (str (action_name action))
      (field (u "outcome") (str outcome) (field (u "apiMessage") (str message) end)))

pub map_known_error : ArrayAction → Text → ResponseFormat → Option ToolResult
map_known_error action message format =
    if includes message (already_in_state_message action)
    then some (
        format_response format (no_op_summary action)
          (outcome_of action (u "already-in-state") message))
    else if includes message change_in_flight_message
    then some (
        tool_error (
          u "Cannot "
          ++ (action_name action
              ++ u
                  " the array: another array state change is still in progress. Retry shortly. No changes were made.")))
    else if includes message state_not_loaded_message
    then some (
        format_response format
          (u "The array "
            ++ (action_name action
                ++ u
                    " command was issued, but the API could not read back the array state. Run array_status to check the result."))
          (outcome_of action (u "issued-unverified") message))
    else none

-- `mapped ?? fallback`
abbrev or_result : Option ToolResult → ToolResult → ToolResult
or_result none fallback = fallback
or_result (some r) fallback = r

pub on_error : ArrayActionArgs → Text → ToolResult
unfolding map_known_error
on_error args message =
    or_result (map_known_error args.action message args.response_format)
      (tool_error (u "Failed to " ++ (action_name args.action ++ (u " the array: " ++ message))))

change_state : Executor Operation Reply → ArrayActionArgs → Action Operation ToolResult
change_state client args = do
  state ← execute client (set_state (desired_state args.action))
  pure (
      format_response args.response_format (requested_summary args.action) (
        obj (
          field (u "requested") (str (action_name args.action)) (
            field (u "outcome") (str (u "requested"))
              (field (u "preMutationState") (str state) end)))))

-- `createArrayActionHandler(client, channel)(args)`
pub array_action :
    Executor Operation Reply
    → Option ElicitationChannel
    → ArrayActionArgs
    → Action Operation ToolResult
unfolding change_state
array_action client channel args =
    guarded (gate_refusal args channel) (try_catch (change_state client args) (on_error args))
