-- ===== src/Gate.antt =====
-- tools/_shared/confirm.ts and elicitation.ts: the gates that every state-changing tool passes.
pub mod Laws
use better_unraid_mcp.Base.{
  Text, u, ◌++◌, Bool, true, false, not, ◌&&◌, ◌||◌, Option, none, some, is_true, if◌then◌else◌,
}
use better_unraid_mcp.Respond.{ToolResult, tool_error}

pub data ElicitationOutcome : Type 0 where
  accepted declined unavailable : ElicitationOutcome

-- The answers of the human (or of a channel that could not ask) to a prompt and its risk field.
pub record ElicitationChannel : Type 0 where
  pub is_available : Bool
  pub confirm : Text → Bool → ElicitationOutcome

pub record RiskGateFlags : Type 0 where
  pub confirm : Option Bool
  pub acknowledge_risk : Option Bool

pub declined_message : Text
declined_message = u "The user declined the confirmation prompt. No changes were made."

-- `none` is the source's `null`: the caller may proceed.
unfoldable pub require_confirmation : Option Bool → Text → Option ToolResult
require_confirmation confirm action_description =
    if is_true confirm
    then none
    else some (
        tool_error (
          u "Refusing to "
          ++ (action_description
              ++ u
                  ": this is a state-changing action that requires confirmation. Re-call with \"confirm\": true to proceed. No changes were made.")))

unfoldable pub require_risk_acknowledgement : RiskGateFlags → Text → Option ToolResult
require_risk_acknowledgement flags refusal_message =
    if is_true flags.confirm && is_true flags.acknowledge_risk
    then none
    else some (tool_error refusal_message)

-- What `askHuman` resolves to: `null`, a refusal, or `undefined`.
pub data Asked : Type 0 where
  proceed : Asked
  refuse : ToolResult → Asked
  fall_back : Asked

asked_of : ElicitationOutcome → Asked
asked_of accepted = proceed
asked_of declined = refuse (tool_error declined_message)
asked_of unavailable = fall_back

unfoldable pub ask_human : Option ElicitationChannel → Text → Bool → Asked
unfolding asked_of
ask_human none message require_risk = fall_back
ask_human (some channel) message require_risk =
    if channel.is_available then asked_of (channel.confirm message require_risk) else fall_back

or_else : Asked → Option ToolResult → Option ToolResult
or_else proceed fallback = none
or_else (refuse r) fallback = some r
or_else fall_back fallback = fallback

unfoldable pub require_confirmation_interactive :
    Option Bool → Text → Option ElicitationChannel → Option ToolResult
unfolding require_confirmation ask_human or_else
require_confirmation_interactive confirm action_description channel =
    if is_true confirm
    then none
    else or_else
        (ask_human channel
          (u "Confirm: " ++ (action_description ++ u "? This is a state-changing action.")) false)
        (require_confirmation confirm action_description)

unfoldable pub require_risk_acknowledgement_interactive :
    RiskGateFlags → Text → Option ElicitationChannel → Option ToolResult
unfolding require_risk_acknowledgement ask_human or_else
require_risk_acknowledgement_interactive flags refusal_message channel =
    if is_true flags.confirm && is_true flags.acknowledge_risk
    then none
    else or_else (ask_human channel refusal_message true)
        (require_risk_acknowledgement flags refusal_message)

-- The form that a client sends back; a member that is no boolean counts as absent.
pub record FormContent : Type 0 where
  pub confirm : Option Bool
  pub acknowledge_risk : Option Bool

unfoldable pub all_confirmed : Option FormContent → Bool → Bool
all_confirmed none require_risk = false
all_confirmed (some content) require_risk =
    if not (is_true content.confirm)
    then false
    else not require_risk || is_true content.acknowledge_risk

-- What the client's elicitation request comes to: an accepted form, any other action, or an error.
pub data ElicitReply : Type 0 where
  accept : Option FormContent → ElicitReply
  other_action : ElicitReply
  failed : ElicitReply

pub outcome_of : Bool → ElicitReply → ElicitationOutcome
unfolding all_confirmed
outcome_of require_risk (accept content) =
    if all_confirmed content require_risk then accepted else declined
outcome_of require_risk other_action = declined
outcome_of require_risk failed = unavailable

-- The channel bound to a client: whether it declared the capability, and its replies.
unfoldable pub create_elicitation_channel : Bool → (Text → Bool → ElicitReply) → ElicitationChannel
create_elicitation_channel has_capability elicit_input = record {
  is_available = has_capability;
  confirm = λ message require_risk. outcome_of require_risk (elicit_input message require_risk);
}
