-- ===== src/Tools/ServiceAction/Laws.antt =====
-- What `service_action` runs on the host, and when it reports success.
use better_unraid_mcp.Base.{
  ◌≡◌, refl, ◌∙◌, ◌⊎◌, inl, inr, Text, List, [], ◌∷◌, true, false, Option, none, some, is_true,
  Bool-cases, arith,
}
use better_unraid_mcp.Effects.{Attempt, returned, guarded_cases}
use better_unraid_mcp.Respond.{ToolResult, is_error}
use better_unraid_mcp.Gate.{ElicitationChannel}
use better_unraid_mcp.Gate.Laws.{RiskAccepted, risk_gated}
use better_unraid_mcp.Tools.Ssh.{ShellCommand, ShellResult, ShellExecutor, is_success}
use better_unraid_mcp.Tools.Ssh.Laws.{
  Succeeds, execute_then, checked_then, success_try, no_success, no_success_error, fails_or,
}
use better_unraid_mcp.Tools.ServiceAction.{
  ServiceActionArgs, ServiceVerb, restart, start, stop, ServiceState, running, stopped,
  not_installed, unknown, never_stop, is_stop, expected_state, validate, refusal_message, probe_of,
  verb_of, status_of, parse_status_output, render_outcome, run_verb, service_action, state_eq,
}

-- The prefixes of the sequence probe, verb, status that the handler may have sent, the newest first: the
-- verb only once the probe succeeded, the status only once the verb did.
abbrev pub Sends : ShellExecutor → ServiceActionArgs → List ShellCommand → Type 0
Sends shell args sent =
    (sent ≡ probe_of args ∷ [])
    ⊎ (Succeeds shell [] (probe_of args)
        × ((sent ≡ verb_of args ∷ probe_of args ∷ [])
            ⊎ (Succeeds shell (probe_of args ∷ []) (verb_of args)
                × (sent ≡ status_of args ∷ verb_of args ∷ probe_of args ∷ []))))

-- Another verb than `stop`, or a service that may be stopped and the flag for it.
abbrev pub MayStop : ServiceActionArgs → Type 0
MayStop args =
    (is_stop args.action ≡ false)
    ⊎ ((never_stop args.service ≡ false) × (is_true args.allow_stop ≡ true))

-- Both gates: the risk, and for `stop` the service and its own flag.
abbrev pub Authorised : ServiceActionArgs → Option ElicitationChannel → Type 0
Authorised args channel = RiskAccepted args.flags (refusal_message args) channel × MayStop args

validate-none : (args : ServiceActionArgs) → validate args ≡ none → MayStop args
unfolding validate
validate-none args h = elim (Bool-cases (is_stop args.action)) [
  | inr e ↦ inl e
  | inl e ↦ inr (ground arith, ground arith)
]

run_verb-Sends :
    (shell : ShellExecutor) (args : ServiceActionArgs) → Sends shell args (run_verb shell args []).1
unfolding run_verb
run_verb-Sends shell args =
    checked_then (λ p. Sends shell args p.1) shell (probe_of args) [] _ _ (λ m. inl refl)
      (λ probe. inl refl)
      (λ probe e ok. inr (
        (probe, e, ok),
        checked_then (λ p. Goes p.1) shell (verb_of args) (probe_of args ∷ []) _ _ (λ m. inl refl)
            (λ action. inl refl)
            (λ action f done. inr (
              (action, f, done),
              execute_then (λ p. p.1 ≡ status_of args ∷ verb_of args ∷ probe_of args ∷ []) shell
                  (status_of args) (verb_of args ∷ probe_of args ∷ []) _ (λ m. refl)
                  (λ status g. refl),
            )),
      ))
  where
    Goes : List ShellCommand → Type 0
    Goes sent =
        (sent ≡ verb_of args ∷ probe_of args ∷ [])
        ⊎ (Succeeds shell (probe_of args ∷ []) (verb_of args)
            × (sent ≡ status_of args ∷ verb_of args ∷ probe_of args ∷ []))

validate-error :
    (args : ServiceActionArgs) (r : ToolResult) → validate args ≡ some r → is_error r ≡ true
unfolding validate
validate-error args r e = ground arith

service_action-Sends :
    (shell : ShellExecutor) (channel : Option ElicitationChannel) (args : ServiceActionArgs)
    → let sent = (service_action (some shell) channel args []).1 in
      (sent ≡ []) ⊎ (Authorised args channel × Sends shell args sent)
unfolding service_action
service_action-Sends shell channel args =
    guarded_cases Q (validate args) _ [] (λ r e. inl refl)
      (λ e.
        risk_gated Q args.flags (refusal_message args) channel _ [] (λ r g. inl refl)
          (λ g. inr ((g, validate-none args e), run_verb-Sends shell args)))
  where
    Q : Attempt ToolResult × List ShellCommand → Type 0
    Q p = (p.1 ≡ []) ⊎ (Authorised args channel × Sends shell args p.1)

-- A stopped service after a stop, a running one after a start or a restart.
abbrev pub state_after : ServiceVerb → ServiceState
state_after restart = running
state_after start = running
state_after stop = stopped

-- The status was read back after the verb, and it is the one that the verb is to bring about.
abbrev pub Verified : ShellExecutor → ServiceActionArgs → Type 0
Verified shell args =
    (status : ShellResult) × (shell (verb_of args ∷ probe_of args ∷ []) (status_of args)
      ≡ returned status)
    × (parse_status_output status.stdout ≡ state_after args.action)

state_eq_sound : (a b : ServiceState) → state_eq a b ≡ true → a ≡ b
unfolding state_eq
state_eq_sound running running h = refl
state_eq_sound running stopped h = ground arith
state_eq_sound running not_installed h = ground arith
state_eq_sound running unknown h = ground arith
state_eq_sound stopped running h = ground arith
state_eq_sound stopped stopped h = refl
state_eq_sound stopped not_installed h = ground arith
state_eq_sound stopped unknown h = ground arith
state_eq_sound not_installed running h = ground arith
state_eq_sound not_installed stopped h = ground arith
state_eq_sound not_installed not_installed h = refl
state_eq_sound not_installed unknown h = ground arith
state_eq_sound unknown running h = ground arith
state_eq_sound unknown stopped h = ground arith
state_eq_sound unknown not_installed h = ground arith
state_eq_sound unknown unknown h = refl

expected_state-after : (verb : ServiceVerb) → expected_state verb ≡ state_after verb
unfolding expected_state
expected_state-after restart = refl
expected_state-after start = refl
expected_state-after stop = refl

render_outcome_success :
    (args : ServiceActionArgs) (state : ServiceState) (detail : Text)
    → is_success (returned (render_outcome args state detail)) ≡ true
    → state ≡ state_after args.action
unfolding render_outcome
render_outcome_success args state detail h =
    elim (Bool-cases (state_eq state (expected_state args.action))) [
      | inl e ↦
          state_eq_sound state (expected_state args.action) e ∙ expected_state-after args.action
      | inr e ↦ ground arith
    ]

service_action-Verified :
    (shell : ShellExecutor) (channel : Option ElicitationChannel) (args : ServiceActionArgs)
    → is_success (service_action (some shell) channel args []).0 ≡ true
    → Verified shell args
unfolding service_action run_verb
service_action-Verified shell channel args =
    guarded_cases Q (validate args) _ [] (λ r e. no_success_error r (validate-error args r e))
      (λ e.
        risk_gated Q args.flags (refusal_message args) channel _ [] (λ r g. no_success_error r g)
          (λ g. success_try (run_verb shell args) _ [] (
            checked_then Q shell (probe_of args) [] _ _ (λ m. no_success) (λ probe. no_success)
              (λ probe a ok.
                checked_then Q shell (verb_of args) (probe_of args ∷ []) _ _ (λ m. no_success)
                  (λ action. no_success)
                  (λ action b done.
                    execute_then Q shell (status_of args) (verb_of args ∷ probe_of args ∷ []) _
                      (λ m. no_success)
                      (λ status c h. (status, c, render_outcome_success args _ _ h)))))))
  where
    Q : Attempt ToolResult × List ShellCommand → Type 0
    Q p = is_success p.0 ≡ true → Verified shell args

-- A call runs nothing, or it is authorised (for `stop`: also `allow_stop` is set and the service is
-- neither docker nor libvirt) and sends a prefix of the sequence of the probe for the script, the verb
-- and the status, where the verb is sent only if the probe succeeded and the status only if the verb did.
-- It fails, or the status that was read back after the verb is the one that the verb is to bring about.
pub service_action_lem :
    (shell : ShellExecutor) (channel : Option ElicitationChannel) (args : ServiceActionArgs)
    → let p = service_action (some shell) channel args [] in
      ((p.1 ≡ []) ⊎ (Authorised args channel × Sends shell args p.1))
      × ((is_success p.0 ≡ false) ⊎ Verified shell args)
service_action_lem shell channel args = (
  service_action-Sends shell channel args,
  fails_or _ (service_action-Verified shell channel args),
)
