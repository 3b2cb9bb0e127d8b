-- ===== src/Gate/Laws.antt =====
-- Exactly when a gate lets an action through.
use better_unraid_mcp.Base.{
  ◌≡◌, refl, ◌⊎◌, inl, inr, ◌↔◌, Text, u, ◌++◌, Bool, true, false, Option, none, some, is_true,
  arith, Bool-cases, ◌&&◌, List,
}
use better_unraid_mcp.Effects.{Attempt, returned, Action, guarded, guarded_cases}
use better_unraid_mcp.Respond.{ToolResult, tool_error, is_error}
use better_unraid_mcp.Gate.{
  ElicitationChannel, ElicitationOutcome, accepted, declined, unavailable, or_else, asked_of,
  require_confirmation, RiskGateFlags, FormContent, other_action, failed, ElicitReply, accept,
  proceed, ask_human, outcome_of, require_confirmation_interactive, require_risk_acknowledgement,
  require_risk_acknowledgement_interactive, create_elicitation_channel,
}

-- The human was reachable and accepted the prompt.
abbrev pub Accepts : Option ElicitationChannel → Text → Bool → Type 0
Accepts none message require_risk = ⊥
Accepts (some c) message require_risk =
    (c.is_available ≡ true) × (c.confirm message require_risk ≡ accepted)

abbrev pub confirm_prompt : Text → Text
confirm_prompt description =
    u "Confirm: " ++ (description ++ u "? This is a state-changing action.")

-- What authorises a tier-1 and a tier-2 action.
abbrev pub Confirmed : Option Bool → Text → Option ElicitationChannel → Type 0
Confirmed confirm description channel =
    (confirm ≡ some true) ⊎ Accepts channel (confirm_prompt description) false

abbrev pub RiskAccepted : RiskGateFlags → Text → Option ElicitationChannel → Type 0
RiskAccepted flags message channel =
    ((flags.confirm ≡ some true) × (flags.acknowledge_risk ≡ some true))
    ⊎ Accepts channel message true

available-Accepts :
    (channel : Option ElicitationChannel) (message : Text) (require_risk : Bool)
    → ask_human channel message require_risk ≡ proceed
    → Accepts channel message require_risk
unfolding ask_human
available-Accepts none message require_risk h = ground arith
available-Accepts (some c) message require_risk h = (ground arith, ground arith)

Accepts-proceed :
    (channel : Option ElicitationChannel) (message : Text) (require_risk : Bool)
    → Accepts channel message require_risk
    → ask_human channel message require_risk ≡ proceed
unfolding ask_human
Accepts-proceed none message require_risk a = absurd a
Accepts-proceed (some c) message require_risk (available, accepts) = ground arith

pub is_true_lem : (b : Option Bool) → is_true b ≡ true → b ≡ some true
is_true_lem none h = ground arith
is_true_lem (some true) h = refl
is_true_lem (some false) h = ground arith

-- The tier-1 gate lets an action through exactly if the argument `confirm` is true, or the human
-- could be asked and accepted the prompt that names the action.
pub confirmation_iff :
    (confirm : Option Bool) (description : Text) (channel : Option ElicitationChannel)
    → (require_confirmation_interactive confirm description channel ≡ none)
      ↔ Confirmed confirm description channel
unfolding require_confirmation_interactive
confirmation_iff confirm description channel = (sound, complete)
  where
    prompt : Text
    prompt = confirm_prompt description

    sound :
        require_confirmation_interactive confirm description channel ≡ none
        → Confirmed confirm description channel
    sound h = elim (Bool-cases (is_true confirm)) [
      | inl e ↦ inl (is_true_lem confirm e)
      | inr e ↦ inr (available-Accepts channel prompt false (ground arith))
    ]

    complete :
        Confirmed confirm description channel
        → require_confirmation_interactive confirm description channel ≡ none
    complete (inl e) = rw e
    complete (inr a) = ground (arith, Accepts-proceed channel prompt false a)

-- The tier-2 gate lets an action through exactly if both flags are true, or the human could be
-- asked and accepted the prompt that carries the refusal message and the risk field.
pub risk_iff :
    (flags : RiskGateFlags) (message : Text) (channel : Option ElicitationChannel)
    → (require_risk_acknowledgement_interactive flags message channel ≡ none)
      ↔ RiskAccepted flags message channel
unfolding require_risk_acknowledgement_interactive
risk_iff flags message channel = (sound, complete)
  where
    sound :
        require_risk_acknowledgement_interactive flags message channel ≡ none
        → RiskAccepted flags message channel
    sound h = elim (Bool-cases (is_true flags.confirm && is_true flags.acknowledge_risk)) [
      | inl e ↦ inl (
          (
            is_true_lem flags.confirm (ground arith),
            is_true_lem flags.acknowledge_risk (ground arith),
          ))
      | inr e ↦ inr (available-Accepts channel message true (ground arith))
    ]

    complete :
        RiskAccepted flags message channel
        → require_risk_acknowledgement_interactive flags message channel ≡ none
    complete (inl (e, f)) = rw (e, f)
    complete (inr a) = ground (arith, Accepts-proceed channel message true a)

asked_of-error :
    (outcome : ElicitationOutcome) (fallback : Text) (refusal : ToolResult)
    → or_else (asked_of outcome) (some (tool_error fallback)) ≡ some refusal
    → is_error refusal ≡ true
unfolding or_else asked_of
asked_of-error accepted fallback refusal h = ground arith
asked_of-error declined fallback refusal h = ground arith
asked_of-error unavailable fallback refusal h = ground arith

ask_human-error :
    (channel : Option ElicitationChannel) (message fallback : Text) (require_risk : Bool)
    (refusal : ToolResult)
    → or_else (ask_human channel message require_risk) (some (tool_error fallback)) ≡ some refusal
    → is_error refusal ≡ true
unfolding ask_human or_else asked_of
ask_human-error none message fallback require_risk refusal h = ground arith
ask_human-error (some c) message fallback require_risk refusal h =
    elim (Bool-cases c.is_available) [
      | inl e ↦ asked_of-error (c.confirm message require_risk) fallback refusal (rw e at h)
      | inr e ↦ asked_of-error unavailable fallback refusal (rw e at h)
    ]

-- A refusal of either gate is an error.
pub risk_refusal :
    (flags : RiskGateFlags) (message : Text) (channel : Option ElicitationChannel)
    (refusal : ToolResult)
    → require_risk_acknowledgement_interactive flags message channel ≡ some refusal
    → is_error refusal ≡ true
unfolding require_risk_acknowledgement_interactive require_risk_acknowledgement
risk_refusal flags message channel refusal h =
    elim (Bool-cases (is_true flags.confirm && is_true flags.acknowledge_risk)) [
      | inl e ↦ ground arith
      | inr e ↦ ask_human-error channel message message true refusal (rw e at h)
    ]

pub confirmation_refusal :
    (confirm : Option Bool) (description : Text) (channel : Option ElicitationChannel)
    (refusal : ToolResult)
    → require_confirmation_interactive confirm description channel ≡ some refusal
    → is_error refusal ≡ true
unfolding require_confirmation_interactive require_confirmation
confirmation_refusal confirm description channel refusal h = elim (Bool-cases (is_true confirm)) [
  | inl e ↦ ground arith
  | inr e ↦ ask_human-error channel (confirm_prompt description) _ false refusal (rw e at h)
]

-- What the rest of a handler needs: it runs only if the gate's condition holds, and otherwise nothing
-- was sent and the result is an error.
pub risk_gated {ℓ} :
    {Op : Type 0} (Q : Attempt ToolResult × List Op → Type ℓ) (flags : RiskGateFlags)
    (message : Text) (channel : Option ElicitationChannel) (m : Action Op ToolResult)
    (sent : List Op)
    → ((refusal : ToolResult) → is_error refusal ≡ true → Q (returned refusal, sent))
    → (RiskAccepted flags message channel → Q (m sent))
    → Q (guarded (require_risk_acknowledgement_interactive flags message channel) m sent)
risk_gated Q flags message channel m sent refused passed =
    guarded_cases Q (require_risk_acknowledgement_interactive flags message channel) m sent
      (λ refusal e. refused refusal (risk_refusal flags message channel refusal e))
      (λ e. passed ((risk_iff flags message channel).0 e))

pub confirmation_gated {ℓ} :
    {Op : Type 0} (Q : Attempt ToolResult × List Op → Type ℓ) (confirm : Option Bool)
    (description : Text) (channel : Option ElicitationChannel) (m : Action Op ToolResult)
    (sent : List Op)
    → ((refusal : ToolResult) → is_error refusal ≡ true → Q (returned refusal, sent))
    → (Confirmed confirm description channel → Q (m sent))
    → Q (guarded (require_confirmation_interactive confirm description channel) m sent)
confirmation_gated Q confirm description channel m sent refused passed =
    guarded_cases Q (require_confirmation_interactive confirm description channel) m sent
      (λ refusal e. refused refusal (confirmation_refusal confirm description channel refusal e))
      (λ e. passed ((confirmation_iff confirm description channel).0 e))

-- The client's answer: an accepted form in which both fields are true.
abbrev pub IsRiskForm : ElicitReply → Type 0
IsRiskForm r =
    (form : FormContent) × (r ≡ accept (some form))
    × (form.confirm ≡ some true)
    × (form.acknowledge_risk ≡ some true)

form_of : (r : ElicitReply) → outcome_of true r ≡ accepted → IsRiskForm r
unfolding outcome_of
form_of (accept (some form)) h = (
  form,
  refl,
  is_true_lem form.confirm (ground arith),
  is_true_lem form.acknowledge_risk (ground arith),
)
form_of (accept none) h = ground arith
form_of other_action h = ground arith
form_of failed h = ground arith

-- Through the channel that is bound to a client, a tier-2 prompt is accepted exactly if the client
-- declared the capability and answered with an accepted form in which both fields are true.
pub channel-Accepts_risk_iff :
    (has_capability : Bool) (elicit_input : Text → Bool → ElicitReply) (message : Text)
    → Accepts (some (create_elicitation_channel has_capability elicit_input)) message true
      ↔ ((has_capability ≡ true) × IsRiskForm (elicit_input message true))
unfolding create_elicitation_channel outcome_of
channel-Accepts_risk_iff has_capability elicit_input message =
    (λ a. (a.0, form_of (elicit_input message true) a.1), λ a. (a.0, ground arith))
