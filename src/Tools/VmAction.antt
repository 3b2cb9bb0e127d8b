-- ===== src/Tools/VmAction.antt =====
-- tools/vm/vm-action.ts: the handler of the tool `vm_action`.
pub mod Laws
use better_unraid_mcp.Base.{
  ◌≡◌, Text, u, ◌++◌, List, [], ◌∷◌, Bool, true, false, ◌||◌, Option, none, some, find, keep,
  text_eq, split_on, join, lower, if◌then◌else◌,
}
use better_unraid_mcp.Effects.{Action, Executor, pure, ◌>>=◌, execute, try_catch, guarded}
use better_unraid_mcp.Json.{null, bool, str, obj, end, field}
use better_unraid_mcp.Respond.{ToolResult, tool_error, ResponseFormat, format_response}
use better_unraid_mcp.Gate.{
  ElicitationChannel, RiskGateFlags, require_confirmation_interactive,
  require_risk_acknowledgement_interactive,
}

pub data VmAction : Type 0 where
  start stop pause resume force_stop reboot reset : VmAction

pub is_ungraceful : VmAction → Bool
is_ungraceful force_stop = true
is_ungraceful reset = true
is_ungraceful _ = false

-- The action as it is spelled in the tool's arguments.
pub action_name : VmAction → Text
action_name start = u "start"
action_name stop = u "stop"
action_name pause = u "pause"
action_name resume = u "resume"
action_name force_stop = u "forceStop"
action_name reboot = u "reboot"
action_name reset = u "reset"

past_tense : VmAction → Text
past_tense start = u "Started"
past_tense stop = u "Stopped"
past_tense pause = u "Paused"
past_tense resume = u "Resumed"
past_tense force_stop = u "Force-stopped"
past_tense reboot = u "Rebooted"
past_tense reset = u "Reset"

pub record VmDomain : Type 0 where
  pub id : Text
  pub name : Option Text

pub record VmActionArgs : Type 0 where
  pub response_format : ResponseFormat
  pub vm : Text
  pub action : VmAction
  pub flags : RiskGateFlags

-- `VmResolveDocument`, and the seven mutations with their variable `id`.
pub data Operation : Type 0 where
  resolve : Operation
  vm_start vm_stop vm_pause vm_resume vm_force_stop vm_reboot vm_reset : Text → Operation

-- `vms.domains`, which may be null, and the Boolean of a mutation.
abbrev pub Reply : Operation → Type 0
Reply resolve = Option (List VmDomain)
Reply _ = Bool

second_of_two : List Text → Text → Text
second_of_two (a ∷ (b ∷ [])) id = b
second_of_two _ id = id

-- The colon is 58.
unfoldable pub strip_server_prefix : Text → Text
unfolding second_of_two
strip_server_prefix id = second_of_two (split_on 58 id) id

pub ungraceful_message : VmAction → Text → Text
ungraceful_message action vm =
    u "Refusing to "
    ++ (action_name action
        ++ (u " VM "
            ++ (vm
                ++ u
                    ": this ungraceful action can corrupt the guest filesystem (like pulling the power). Re-call with \"confirm\": true and \"acknowledge_risk\": true to proceed. No changes were made.")))

pub describe_action : VmAction → Text → Text
describe_action action vm = action_name action ++ (u " VM " ++ vm)

pub gate_refusal : VmActionArgs → Option ElicitationChannel → Option ToolResult
gate_refusal args channel =
    if is_ungraceful args.action
    then require_risk_acknowledgement_interactive args.flags
        (ungraceful_message args.action args.vm) channel
    else require_confirmation_interactive args.flags.confirm (describe_action args.action args.vm)
        channel

unfoldable pub matches_id : Text → VmDomain → Bool
matches_id vm domain =
    text_eq domain.id vm || text_eq (strip_server_prefix domain.id) (strip_server_prefix vm)

name_is : Text → Option Text → Bool
name_is needle none = false
name_is needle (some name) = text_eq (lower name) needle

pub matches_name : Text → VmDomain → Bool
unfolding name_is
matches_name vm domain = name_is (lower vm) domain.name

pub data ResolveResult : Type 0 where
  found : VmDomain → ResolveResult
  failed : Text → ResolveResult

abbrev ids_of : List VmDomain → List Text
ids_of [] = []
ids_of (domain ∷ domains) = domain.id ∷ ids_of domains

by_name : Text → List VmDomain → ResolveResult
by_name vm (domain ∷ []) = found domain
by_name vm [] = failed (u "No VM matches '" ++ (vm ++ u "'."))
by_name vm (domain ∷ domains) = failed (
    u "Multiple VMs named '"
    ++ (vm
        ++ (u "': "
            ++ (join (u ", ") (ids_of (domain ∷ domains)) ++ u ". Pass the id to disambiguate."))))

unfoldable pub resolve_vm : List VmDomain → Text → ResolveResult
unfolding by_name
resolve_vm domains vm = elim (find (matches_id vm) domains) [
  | some domain ↦ found domain
  | none ↦ by_name vm (keep (matches_name vm) domains)
]

summarize : VmAction → Text → Bool → Text
summarize action label false =
    u "VM "
    ++ (label
        ++ (u ": "
            ++ (action_name action
                ++ u
                    " returned false instead of confirming success. Run vm_list to check the current state.")))
summarize action label true = past_tense action ++ (u " VM " ++ (label ++ u "."))

abbrev label_of : VmDomain → Text
label_of domain = elim domain.name [ none ↦ domain.id | some name ↦ name ]

abbrev or_empty : Option (List VmDomain) → List VmDomain
or_empty none = []
or_empty (some domains) = domains

-- `runAction`
pub run_action : Executor Operation Reply → VmAction → Text → Action Operation Bool
run_action client start id = execute client (vm_start id)
run_action client stop id = execute client (vm_stop id)
run_action client pause id = execute client (vm_pause id)
run_action client resume id = execute client (vm_resume id)
run_action client force_stop id = execute client (vm_force_stop id)
run_action client reboot id = execute client (vm_reboot id)
run_action client reset id = execute client (vm_reset id)

-- What the handler does with the result of its lookup.
act_on : Executor Operation Reply → VmActionArgs → ResolveResult → Action Operation ToolResult
unfolding run_action
act_on client args (failed message) = pure (tool_error message)
act_on client args (found domain) = do
  ok ← run_action client args.action domain.id
  pure (
      format_response args.response_format (summarize args.action (label_of domain) ok) (
        obj (
          field (u "ok") (bool ok) (
            field (u "action") (str (action_name args.action)) (
              field (u "id") (str domain.id) (
                field (u "name") (elim domain.name [ none ↦ null | some name ↦ str name ]) end))))))

-- The body of the handler's `try`.
lookup_and_run : Executor Operation Reply → VmActionArgs → Action Operation ToolResult
unfolding act_on
lookup_and_run client args = do
  domains ← execute client resolve
  act_on client args (resolve_vm (or_empty domains) args.vm)

-- `createVmActionHandler(client, channel)(args)`
pub vm_action :
    Executor Operation Reply
    → Option ElicitationChannel
    → VmActionArgs
    → Action Operation ToolResult
vm_action client channel args = guarded (gate_refusal args channel) (
    try_catch (lookup_and_run client args) (λ message. tool_error (
      u "Failed to "
      ++ (action_name args.action ++ (u " VM " ++ (args.vm ++ (u ": " ++ message)))))))
