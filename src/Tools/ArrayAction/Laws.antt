-- ===== src/Tools/ArrayAction/Laws.antt =====
-- When `array_action` changes the array, and how it reports what the API threw.
use better_unraid_mcp.Base.{
  ◌≡◌, refl, sym, subst, ◌⊎◌, inl, inr, ◌↔◌, Text, List, [], ◌∷◌, true, false, Option, none,
  includes, Option-cases, Bool-cases, arith,
}
use better_unraid_mcp.Effects.{Executor, resume-pure}
use better_unraid_mcp.Respond.{is_error, format_response}
use better_unraid_mcp.Gate.{ElicitationChannel, RiskGateFlags}
use better_unraid_mcp.Gate.Laws.{Confirmed, RiskAccepted, confirmation_iff, risk_iff}
use better_unraid_mcp.Tools.ArrayAction.{
  ArrayAction, start, stop, state_start, state_stop, ArrayActionArgs, Operation, set_state, Reply,
  stop_message, start_description, desired_state, already_in_state_message,
  change_in_flight_message, state_not_loaded_message, gate_refusal, on_error, array_action,
}

-- What a call may send: the start, behind the first gate, or the stop, behind the second.
abbrev pub Sends : ArrayAction → RiskGateFlags → Option ElicitationChannel → List Operation → Type 0
Sends start flags channel sent =
    Confirmed flags.confirm start_description channel × (sent ≡ set_state state_start ∷ [])
Sends stop flags channel sent =
    RiskAccepted flags stop_message channel × (sent ≡ set_state state_stop ∷ [])

passed-Sends :
    (action : ArrayAction) (args : ArrayActionArgs) (channel : Option ElicitationChannel)
    → args.action ≡ action
    → gate_refusal args channel ≡ none
    → Sends action args.flags channel (set_state (desired_state action) ∷ [])
unfolding gate_refusal desired_state
passed-Sends start args channel e h =
    ((confirmation_iff args.flags.confirm start_description channel).0 (ground arith), refl)
passed-Sends stop args channel e h =
    ((risk_iff args.flags stop_message channel).0 (ground arith), refl)

-- A call sends nothing, or it is authorised and sends exactly one mutation: for `start` the one with
-- START, behind the confirmation gate, for `stop` the one with STOP, behind the risk gate.
pub array_action-Sends :
    (client : Executor Operation Reply) (channel : Option ElicitationChannel)
    (args : ArrayActionArgs)
    → let sent = (array_action client channel args []).1 in
      (sent ≡ []) ⊎ Sends args.action args.flags channel sent
unfolding array_action
array_action-Sends client channel args = elim (Option-cases (gate_refusal args channel)) [
  | inl e ↦
      let one : (array_action client channel args []).1
          ≡ set_state (desired_state args.action) ∷ [] =
        rw (e, array_action)
          (resume-pure (client [] (set_state (desired_state args.action))) _ _) in
      inr (
        subst (Sends args.action args.flags channel) (sym one)
          (passed-Sends args.action args channel refl e))
  | inr (refusal, e) ↦ inl (rw (e, array_action))
]

-- How a thrown message is reported: as no error exactly if the API says that the array is already
-- in the requested state, or, with no other change in flight, that the state could not be read back
-- after the command was issued.
pub on_error_iff :
    (args : ArrayActionArgs) (message : Text)
    → (is_error (on_error args message) ≡ false) ↔ (
        (includes message (already_in_state_message args.action) ≡ true)
        ⊎ ((includes message change_in_flight_message ≡ false)
            × (includes message state_not_loaded_message ≡ true)))
unfolding on_error format_response
on_error_iff args message = (
  λ h. elim (Bool-cases (includes message (already_in_state_message args.action))) [
    | inl e ↦ inl e
    | inr e ↦ ground arith
  ],
  λ h. ground arith,
)
