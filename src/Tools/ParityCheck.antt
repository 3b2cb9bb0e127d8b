-- ===== src/Tools/ParityCheck.antt =====
-- tools/array/parity-check.ts: the handler of the tool `parity_check`.
pub mod Laws
use better_unraid_mcp.Base.{
  Text, u, ◌++◌, List, [], ◌∷◌, Bool, true, false, Option, none, some, includes, is_true,
  if◌then◌else◌,
}
use better_unraid_mcp.Effects.{Action, Executor, pure, ◌>>=◌, execute, try_catch, guarded}
use better_unraid_mcp.Json.{Json, bool, str, obj, end, field}
use better_unraid_mcp.Respond.{ToolResult, tool_error, ResponseFormat, format_response}
use better_unraid_mcp.Gate.{ElicitationChannel, require_confirmation_interactive}

pub data ParityAction : Type 0 where
  start pause resume cancel : ParityAction

action_name : ParityAction → Text
action_name start = u "start"
action_name pause = u "pause"
action_name resume = u "resume"
action_name cancel = u "cancel"

point_to_status : Text
point_to_status = u "Run array_status to confirm — status reads may lag a few seconds."

unfoldable pub invalid_state_message : Text
invalid_state_message = u "Invalid parity check state"

unfoldable pub history_read_message : Text
history_read_message = u "Parity history file not found"

pub record ParityCheckArgs : Type 0 where
  pub response_format : ResponseFormat
  pub action : ParityAction
  pub correct : Option Bool
  pub confirm : Option Bool

-- The four mutations; their payload is never read.
pub data Operation : Type 0 where
  parity_start : Bool → Operation
  parity_pause parity_resume parity_cancel : Operation

abbrev pub Reply : Operation → Type 0
Reply op = Unit {0}

describe_start : Bool → Text
describe_start true = u "start a correcting parity check (writes corrections to parity)"
describe_start false = u "start a read-only parity check"

describe_for : ParityAction → Option Bool → Text
unfolding describe_start
describe_for start correct = describe_start (is_true correct)
describe_for action correct = action_name action ++ u " the parity check"

pub describe_action : ParityCheckArgs → Text
unfolding describe_for
describe_action args = describe_for args.action args.correct

correct_error : Text
correct_error =
    u
      "`correct` is only valid with action \"start\" (it selects a correcting check). No changes were made."

-- `args.correct !== undefined && args.action !== "start"`
pub misuses_correct : ParityAction → Option Bool → Bool
misuses_correct start correct = false
misuses_correct action none = false
misuses_correct action (some correct) = true

pub gate_refusal : ParityCheckArgs → Option ElicitationChannel → Option ToolResult
gate_refusal args channel =
    if misuses_correct args.action args.correct
    then some (tool_error correct_error)
    else require_confirmation_interactive args.confirm (describe_action args) channel

-- The mutation that `runAction` dispatches to.
pub operation_of : ParityAction → Bool → Operation
operation_of start correct = parity_start correct
operation_of pause correct = parity_pause
operation_of resume correct = parity_resume
operation_of cancel correct = parity_cancel

mode_of : Bool → Text
mode_of true = u "correcting — writes corrections to parity"
mode_of false = u "read-only"

summarize : ParityAction → Bool → Text
summarize start correct =
    u "Parity check start requested (" ++ (mode_of correct ++ (u "). " ++ point_to_status))
summarize action correct =
    u "Parity check "
    ++ (action_name action
        ++ (u " requested. "
            ++ (point_to_status
                ++ u " If no check was running, Unraid may accept this with no effect.")))

pub map_known_error : ParityAction → Text → ResponseFormat → Option ToolResult
map_known_error action message format =
    if includes message invalid_state_message
    then some (
        tool_error (
          u "Unraid refused to "
          ++ (action_name action
              ++ u
                  " the parity check — a check is already running (run array_status to see it). No changes were made.")))
    else if includes message history_read_message
    then some (
        format_response format
          (u "The parity check "
            ++ (action_name action
                ++ (u " command was issued, but the API's post-command history read failed. "
                    ++ point_to_status)))
          (obj (
            field (u "requested") (str (action_name action)) (
              field (u "outcome") (str (u "issued-unverified"))
                (field (u "apiMessage") (str message) end)))))
    else none

abbrev or_result : Option ToolResult → ToolResult → ToolResult
or_result none fallback = fallback
or_result (some r) fallback = r

pub on_error : ParityCheckArgs → Text → ToolResult
unfolding map_known_error
on_error args message = or_result (map_known_error args.action message args.response_format) (
    tool_error
      (u "Failed to " ++ (action_name args.action ++ (u " the parity check: " ++ message))))

-- `args.correct ?? DEFAULT_CORRECT`
abbrev pub correct_of : Option Bool → Bool
correct_of none = false
correct_of (some correct) = correct

run_check : Executor Operation Reply → ParityCheckArgs → Action Operation ToolResult
run_check client args = do
  done ← execute client (operation_of args.action (correct_of args.correct))
  pure (
      format_response args.response_format (summarize args.action (correct_of args.correct)) (
        obj (
          field (u "requested") (str (action_name args.action)) (
            field (u "correct") (bool (correct_of args.correct))
              (field (u "outcome") (str (u "requested")) end)))))

-- `createParityCheckHandler(client, channel)(args)`
pub parity_check :
    Executor Operation Reply
    → Option ElicitationChannel
    → ParityCheckArgs
    → Action Operation ToolResult
unfolding run_check
parity_check client channel args =
    guarded (gate_refusal args channel) (try_catch (run_check client args) (on_error args))
