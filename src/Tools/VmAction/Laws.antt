-- ===== src/Tools/VmAction/Laws.antt =====
-- What `vm_action` sends to the server, and which machine it picks.
use better_unraid_mcp.Base.{
  ◌≡◌, refl, ◌∙◌, ◌⊎◌, inl, inr, Text, List, [], ◌∷◌, Bool, true, false, Option, none, find, keep,
  All, find_sound, keep_single, Option-cases, arith,
}
use better_unraid_mcp.Effects.{Attempt, returned, thrown, Executor, resume-pure}
use better_unraid_mcp.Gate.{ElicitationChannel}
use better_unraid_mcp.Gate.Laws.{Confirmed, RiskAccepted, confirmation_iff, risk_iff}
use better_unraid_mcp.Tools.VmAction.{
  VmActionArgs, VmAction, start, stop, pause, resume, force_stop, reboot, reset, VmDomain,
  Operation, resolve, vm_start, vm_stop, vm_pause, vm_resume, vm_force_stop, vm_reboot, vm_reset,
  Reply, ResolveResult, found, failed, is_ungraceful, ungraceful_message, describe_action,
  gate_refusal, matches_id, matches_name, by_name, resolve_vm, vm_action, run_action, act_on,
  lookup_and_run, or_empty,
}

-- What has to hold before an action may run: both flags or an accepted risk prompt for the two
-- ungraceful actions, `confirm` or an accepted prompt for the others.
abbrev Tier : Bool → VmActionArgs → Option ElicitationChannel → Type 0
Tier true args channel = RiskAccepted args.flags (ungraceful_message args.action args.vm) channel
Tier false args channel = Confirmed args.flags.confirm (describe_action args.action args.vm) channel

abbrev pub Authorised : VmActionArgs → Option ElicitationChannel → Type 0
Authorised args channel = Tier (is_ungraceful args.action) args channel

gate_refusal_sound :
    (args : VmActionArgs) (channel : Option ElicitationChannel)
    → gate_refusal args channel ≡ none
    → Authorised args channel
unfolding gate_refusal
gate_refusal_sound args channel = go (is_ungraceful args.action) refl
  where
    go :
        (b : Bool)
        → is_ungraceful args.action ≡ b
        → gate_refusal args channel ≡ none
        → Tier (is_ungraceful args.action) args channel
    go true e h = rw e ((risk_iff args.flags _ channel).0 (ground arith))
    go false e h = rw e ((confirmation_iff args.flags.confirm _ channel).0 (ground arith))

-- The mutation of each action on the machine with the given id.
abbrev pub Mutates : VmAction → Text → Operation → Type 0
Mutates start id op = op ≡ vm_start id
Mutates stop id op = op ≡ vm_stop id
Mutates pause id op = op ≡ vm_pause id
Mutates resume id op = op ≡ vm_resume id
Mutates force_stop id op = op ≡ vm_force_stop id
Mutates reboot id op = op ≡ vm_reboot id
Mutates reset id op = op ≡ vm_reset id

-- The operations sent by a call, the newest first.
abbrev pub Sends : Executor Operation Reply → VmActionArgs → List Operation → Type 0
Sends client args sent =
    (sent ≡ resolve ∷ [])
    ⊎ ((domains : Option (List VmDomain)) × (domain : VmDomain) × (client [] resolve
          ≡ returned domains)
        × (resolve_vm (or_empty domains) args.vm ≡ found domain)
        × (op : Operation) × Mutates args.action domain.id op
        × (sent ≡ op ∷ resolve ∷ []))

run_action_sends :
    (client : Executor Operation Reply) (action : VmAction) (id : Text) (sent : List Operation)
    → (op : Operation) × Mutates action id op × ((run_action client action id sent).1 ≡ op ∷ sent)
unfolding run_action
run_action_sends client start id sent = (vm_start id, refl, refl)
run_action_sends client stop id sent = (vm_stop id, refl, refl)
run_action_sends client pause id sent = (vm_pause id, refl, refl)
run_action_sends client resume id sent = (vm_resume id, refl, refl)
run_action_sends client force_stop id sent = (vm_force_stop id, refl, refl)
run_action_sends client reboot id sent = (vm_reboot id, refl, refl)
run_action_sends client reset id sent = (vm_reset id, refl, refl)

act_on_sends :
    (client : Executor Operation Reply) (args : VmActionArgs) (target : ResolveResult)
    (sent : List Operation)
    → ((act_on client args target sent).1 ≡ sent)
      ⊎ ((domain : VmDomain) × (target ≡ found domain)
          × (op : Operation) × Mutates args.action domain.id op
          × ((act_on client args target sent).1 ≡ op ∷ sent))
unfolding act_on
act_on_sends client args (failed message) sent = inl refl
act_on_sends client args (found domain) sent =
    let (op, named, one) = run_action_sends client args.action domain.id sent in
    inr (domain, refl, op, named, resume-pure _ _ _ ∙ one)

lookup-Sends :
    (client : Executor Operation Reply) (args : VmActionArgs)
    (reply : Attempt (Option (List VmDomain)))
    → client [] resolve ≡ reply
    → Sends client args (lookup_and_run client args []).1
unfolding lookup_and_run
lookup-Sends client args (thrown message) e = inl (rw e)
lookup-Sends client args (returned domains) e =
    elim (act_on_sends client args (resolve_vm (or_empty domains) args.vm) (resolve ∷ [])) [
      | inl h ↦ inl (rw e h)
      | inr (domain, target, op, named, h) ↦ inr (domains, domain, e, target, op, named, rw e h)
    ]

-- Unless the gate is passed nothing is sent. Otherwise the call looks the machines up, and then
-- sends at most one mutation: the requested action, on the machine that the lookup found.
pub vm_action-Sends :
    (client : Executor Operation Reply) (channel : Option ElicitationChannel) (args : VmActionArgs)
    → let sent = (vm_action client channel args []).1 in
      (sent ≡ []) ⊎ (Authorised args channel × Sends client args sent)
unfolding vm_action
vm_action-Sends client channel args = elim (Option-cases (gate_refusal args channel)) [
  | inl e ↦
      rw (e, vm_action) (inr (gate_refusal_sound args channel e, lookup-Sends client args _ refl))
  | inr (refusal, e) ↦ inl (rw (e, vm_action))
]

by_name_single :
    (vm : Text) (named : List VmDomain) (d : VmDomain) → by_name vm named ≡ found d → named ≡ d ∷ []
unfolding by_name
by_name_single vm [] d h = cc
by_name_single vm (c ∷ []) d h = cc
by_name_single vm (c ∷ (e ∷ rest)) d h = cc

-- A machine that is found has the requested id, with or without its server prefix, or no machine
-- has that id and it is the only machine of the list with the requested name.
pub resolve_vm_found :
    (domains : List VmDomain) (vm : Text) (d : VmDomain)
    → resolve_vm domains vm ≡ found d
    → (matches_id vm d ≡ true)
      ⊎ ((find (matches_id vm) domains ≡ none)
          × (matches_name vm d ≡ true)
          × All (λ e. matches_name vm e ≡ true → e ≡ d) domains)
unfolding resolve_vm
resolve_vm_found domains vm d h = elim (Option-cases (find (matches_id vm) domains)) [
  | inl e ↦
      let named : keep (matches_name vm) domains ≡ d ∷ [] =
        by_name_single vm _ d (rw (e, resolve_vm) at h) in
      let (named_d, unique) = keep_single (matches_name vm) domains d named in
      inr (e, named_d, unique)
  | inr (c, e) ↦ inl (find_sound (matches_id vm) domains d (ground arith))
]
