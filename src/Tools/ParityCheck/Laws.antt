-- ===== src/Tools/ParityCheck/Laws.antt =====
-- When `parity_check` sends a mutation, and which.
use better_unraid_mcp.Base.{
  ◌≡◌, refl, sym, subst, ◌⊎◌, inl, inr, ◌↔◌, Text, List, [], ◌∷◌, Bool, true, false, Option, none,
  some, includes, Option-cases, arith,
}
use better_unraid_mcp.Effects.{Executor, resume-pure}
use better_unraid_mcp.Respond.{is_error, format_response}
use better_unraid_mcp.Gate.{ElicitationChannel}
use better_unraid_mcp.Gate.Laws.{Confirmed, confirmation_iff}
use better_unraid_mcp.Tools.ParityCheck.{
  ParityAction, ParityCheckArgs, start, pause, resume, cancel, Operation, parity_start,
  parity_pause, parity_resume, parity_cancel, Reply, describe_action, misuses_correct, gate_refusal,
  operation_of, correct_of, invalid_state_message, history_read_message, on_error, parity_check,
}

-- The argument `correct` is absent, or the action is `start`.
abbrev pub IsConsistent : ParityCheckArgs → Type 0
IsConsistent args = (args.correct ≡ none) ⊎ (args.action ≡ start)

misuse_free :
    (args : ParityCheckArgs) → misuses_correct args.action args.correct ≡ false → IsConsistent args
unfolding misuses_correct
misuse_free args h = ground arith

-- The mutation of each action: a start corrects if `correct` is true, and only reads if it is not.
abbrev pub Sends : ParityAction → Option Bool → List Operation → Type 0
Sends start correct sent =
    ((correct ≡ some true) × (sent ≡ parity_start true ∷ []))
    ⊎ (((correct ≡ none) ⊎ (correct ≡ some false)) × (sent ≡ parity_start false ∷ []))
Sends pause correct sent = sent ≡ parity_pause ∷ []
Sends resume correct sent = sent ≡ parity_resume ∷ []
Sends cancel correct sent = sent ≡ parity_cancel ∷ []

operation_of-Sends :
    (action : ParityAction) (correct : Option Bool)
    → Sends action correct (operation_of action (correct_of correct) ∷ [])
unfolding operation_of
operation_of-Sends start none = inr (inl refl, refl)
operation_of-Sends start (some false) = inr (inr refl, refl)
operation_of-Sends start (some true) = inl (refl, refl)
operation_of-Sends pause correct = refl
operation_of-Sends resume correct = refl
operation_of-Sends cancel correct = refl

passed_gate :
    (args : ParityCheckArgs) (channel : Option ElicitationChannel)
    → gate_refusal args channel ≡ none
    → IsConsistent args × Confirmed args.confirm (describe_action args) channel
unfolding gate_refusal
passed_gate args channel e = (
  misuse_free args (ground arith),
  (confirmation_iff args.confirm (describe_action args) channel).0 (ground arith),
)

sent_by_check :
    (client : Executor Operation Reply) (channel : Option ElicitationChannel)
    (args : ParityCheckArgs)
    → gate_refusal args channel ≡ none
    → (parity_check client channel args []).1
      ≡ operation_of args.action (correct_of args.correct) ∷ []
unfolding parity_check
sent_by_check client channel args e =
    rw (e, parity_check)
      (resume-pure (client [] (operation_of args.action (correct_of args.correct))) _ _)

-- A call sends nothing, or its `correct` is consistent with its action, it is confirmed, and it
-- sends exactly the mutation of its action: that of a start, which corrects exactly if `correct` is
-- true, of a pause, of a resume, or of a cancel.
pub parity_check-Sends :
    (client : Executor Operation Reply) (channel : Option ElicitationChannel)
    (args : ParityCheckArgs)
    → let sent = (parity_check client channel args []).1 in
      (sent ≡ [])
      ⊎ (IsConsistent args
          × Confirmed args.confirm (describe_action args) channel
          × Sends args.action args.correct sent)
unfolding parity_check
parity_check-Sends client channel args = elim (Option-cases (gate_refusal args channel)) [
  | inl e ↦
      let (consistent, confirmed) = passed_gate args channel e in
      inr (
        consistent,
        confirmed,
        subst (Sends args.action args.correct) (sym (sent_by_check client channel args e))
            (operation_of-Sends args.action args.correct),
      )
  | inr (refusal, e) ↦ inl (rw (e, parity_check))
]

-- How a thrown message is reported: as no error exactly if the check was not already running and
-- only the history read after the command failed.
pub parity_on_error_iff :
    (args : ParityCheckArgs) (message : Text)
    → (is_error (on_error args message) ≡ false) ↔ (
        (includes message invalid_state_message ≡ false)
        × (includes message history_read_message ≡ true))
unfolding on_error format_response
parity_on_error_iff args message = (λ h. ground arith, λ h. ground arith)
