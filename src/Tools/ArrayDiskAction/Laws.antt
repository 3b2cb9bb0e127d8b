-- ===== src/Tools/ArrayDiskAction/Laws.antt =====
-- When `array_disk_action` changes the array, and in which state of the array.
use better_unraid_mcp.Base.{
  ◌≡◌, refl, ◌≢◌, ◌⊎◌, inl, inr, Text, List, [], ◌∷◌, Option, none, Option-cases, arith, ◌∙◌,
}
use better_unraid_mcp.Effects.{Attempt, returned, thrown, Executor, resume-pure}
use better_unraid_mcp.Gate.{ElicitationChannel}
use better_unraid_mcp.Gate.Laws.{RiskAccepted, risk_iff}
use better_unraid_mcp.Tools.ArrayDiskAction.{
  ℤ, DiskAction, add, mount, unmount, clear_statistics, remove, ArrayDiskActionArgs, ArrayState,
  started, stopped, Operation, probe_state, disk_add, disk_mount, disk_unmount, disk_clear_stats,
  Reply, refusal_message, needs_stopped_array, needs_started_array, is_slot_action, is_retired,
  is_stopped, is_started, state_precondition, run_disk_action, after_probe, probe_and_run,
  refusal_of, array_disk_action,
}

-- The state of the array that an action demands.
abbrev pub IsReady : DiskAction → ArrayState → Type 0
IsReady action state =
    (action ≡ add → state ≡ stopped) × (action ≢ add → action ≢ remove → state ≡ started)

precondition_sound :
    (action : DiskAction) (state : ArrayState)
    → state_precondition action state ≡ none
    → IsReady action state
unfolding state_precondition needs_stopped_array needs_started_array is_stopped is_started
precondition_sound action state h = ((λ e. ground arith), (λ e f. ground arith))

-- What has to hold before anything is sent.
abbrev pub IsAllowed : ArrayDiskActionArgs → Option ElicitationChannel → Type 0
IsAllowed args channel =
    (args.action ≢ remove)
    × ((args.slot ≡ none) ⊎ (args.action ≡ add))
    × RiskAccepted args.flags (refusal_message args) channel

refusal_of_sound :
    (args : ArrayDiskActionArgs) (channel : Option ElicitationChannel)
    → refusal_of args channel ≡ none
    → IsAllowed args channel
unfolding refusal_of is_retired is_slot_action
refusal_of_sound args channel h = (
  (λ e. ground arith),
  ground arith,
  (risk_iff args.flags (refusal_message args) channel).0 (ground arith),
)

-- The one mutation that belongs to an action.
abbrev pub Mutates : DiskAction → Text → Option ℤ → Operation → Type 0
Mutates add id slot op = op ≡ disk_add id slot
Mutates mount id slot op = op ≡ disk_mount id
Mutates unmount id slot op = op ≡ disk_unmount id
Mutates clear_statistics id slot op = op ≡ disk_clear_stats id
Mutates remove id slot op = ⊥

run_disk_action_sends :
    (client : Executor Operation Reply) (action : DiskAction) (id : Text) (slot : Option ℤ)
    (sent : List Operation)
    → action ≢ remove
    → (op : Operation) × Mutates action id slot op
      × ((run_disk_action client action id slot sent).1 ≡ op ∷ sent)
unfolding run_disk_action
run_disk_action_sends client add id slot sent h =
    (disk_add id slot, refl, resume-pure (client sent (disk_add id slot)) _ (λ r. tt))
run_disk_action_sends client mount id slot sent h =
    (disk_mount id, refl, resume-pure (client sent (disk_mount id)) _ (λ r. tt))
run_disk_action_sends client unmount id slot sent h =
    (disk_unmount id, refl, resume-pure (client sent (disk_unmount id)) _ (λ r. tt))
run_disk_action_sends client clear_statistics id slot sent h =
    (disk_clear_stats id, refl, resume-pure (client sent (disk_clear_stats id)) _ (λ r. tt))
run_disk_action_sends client remove id slot sent h = absurd (h refl)

-- The operations that are sent, the newest first: the probe, and then the mutation of the action if
-- the probe reported the state that the action demands.
abbrev pub Sends : Executor Operation Reply → ArrayDiskActionArgs → List Operation → Type 0
Sends client args sent =
    (sent ≡ probe_state ∷ [])
    ⊎ ((state : ArrayState) × (op : Operation) × (client [] probe_state ≡ returned state)
        × IsReady args.action state
        × Mutates args.action args.id args.slot op
        × (sent ≡ op ∷ probe_state ∷ []))

after_probe-Sends :
    (client : Executor Operation Reply) (args : ArrayDiskActionArgs) (state : ArrayState)
    → args.action ≢ remove
    → client [] probe_state ≡ returned state
    → Sends client args (after_probe client args state (probe_state ∷ [])).1
unfolding after_probe
after_probe-Sends client args state live e =
    elim (Option-cases (state_precondition args.action state)) [
      | inl h ↦
          let (op, mutates, sends) =
            run_disk_action_sends client args.action args.id args.slot (probe_state ∷ []) live in
          inr (
            state,
            op,
            e,
            precondition_sound args.action state h,
            mutates,
            rw (h, after_probe)
                (resume-pure
                    (run_disk_action client args.action args.id args.slot (probe_state ∷ [])).0 _ _
                  ∙ sends),
          )
      | inr (refusal, h) ↦ inl (rw (h, after_probe))
    ]

probe-Sends :
    (client : Executor Operation Reply) (args : ArrayDiskActionArgs) (reply : Attempt ArrayState)
    → args.action ≢ remove
    → client [] probe_state ≡ reply
    → Sends client args (probe_and_run client args []).1
unfolding probe_and_run
probe-Sends client args (thrown message) live e = inl (rw e)
probe-Sends client args (returned state) live e =
    rw e (rw e at (after_probe-Sends client args state live e))

-- A call sends nothing, or it is allowed (both flags or an accepted risk prompt, `slot` only with
-- `add`, no retired action); then it probes the array's state, and sends at most the one mutation
-- of its action, and that only if the array was STOPPED for `add` or STARTED for the others.
pub array_disk_action-Sends :
    (client : Executor Operation Reply) (channel : Option ElicitationChannel)
    (args : ArrayDiskActionArgs)
    → let sent = (array_disk_action client channel args []).1 in
      (sent ≡ []) ⊎ (IsAllowed args channel × Sends client args sent)
unfolding array_disk_action
array_disk_action-Sends client channel args = elim (Option-cases (refusal_of args channel)) [
  | inl e ↦
      let allowed = refusal_of_sound args channel e in
      rw (e, array_disk_action) (inr (allowed, probe-Sends client args _ allowed.0 refl))
  | inr (refusal, e) ↦ inl (rw (e, array_disk_action))
]
