-- ===== src/Tests/Handlers.antt =====
-- The handlers of the tools at concrete arguments and replies.
use better_unraid_mcp.Base.{
  ◌≡◌, refl, ◌⊎◌, inl, u, List, [], ◌∷◌, true, false, none, some, All, member, text_eq,
}
use better_unraid_mcp.Effects.{returned, thrown, Executor}
use better_unraid_mcp.Respond.{concise}
use better_unraid_mcp.Gate.{RiskGateFlags}
use better_unraid_mcp.Gate.Laws.{Confirmed, RiskAccepted}
use better_unraid_mcp.Tools.VmAction
use better_unraid_mcp.Tools.VmAction.Laws as Vms
use better_unraid_mcp.Tools.ArrayAction
use better_unraid_mcp.Tools.ArrayAction.Laws as Arrays
use better_unraid_mcp.Tools.ParityCheck
use better_unraid_mcp.Tools.ParityCheck.Laws as Parity
use better_unraid_mcp.Tools.ArrayDiskAction
use better_unraid_mcp.Tools.ArrayDiskAction.Laws as Disks
use better_unraid_mcp.Tools.DockerAutostartSet
use better_unraid_mcp.Tools.DockerAutostartSet.Laws as Autostart
use better_unraid_mcp.Tools.DockerAutostartSet.Order
use better_unraid_mcp.Tools.DockerAutostartSet.Merged
use better_unraid_mcp.Tools.NotificationDelete
use better_unraid_mcp.Tools.NotificationDelete.Laws as Deletion
use better_unraid_mcp.Tools.Ssh.{is_success}
use better_unraid_mcp.Tools.ApikeyManage
use better_unraid_mcp.Tools.ApikeyManage.Laws as Keys
use better_unraid_mcp.Tools.PluginChange
use better_unraid_mcp.Tools.PluginChange.Laws as Plugins
use better_unraid_mcp.Tools.Registry
use better_unraid_mcp.Tools.Registry.Laws as Offers

abbrev both_flags : RiskGateFlags
both_flags = record { confirm = some true; acknowledge_risk = some true }

abbrev windows : VmAction.VmDomain
windows = record { id = u "srv:17"; name = some (u "Windows") }

abbrev vm_client : Executor VmAction.Operation VmAction.Reply
vm_client sent VmAction.resolve = returned (some (windows ∷ []))
vm_client sent (VmAction.vm_start id) = returned true
vm_client sent (VmAction.vm_stop id) = returned true
vm_client sent (VmAction.vm_pause id) = returned true
vm_client sent (VmAction.vm_resume id) = returned true
vm_client sent (VmAction.vm_force_stop id) = returned true
vm_client sent (VmAction.vm_reboot id) = returned true
vm_client sent (VmAction.vm_reset id) = returned true

abbrev reset_windows : VmAction.VmActionArgs
reset_windows = record {
  response_format = concise;
  vm = u "windows";
  action = VmAction.reset;
  flags = both_flags;
}

vm_action-Sends_example :
    let sent = (VmAction.vm_action vm_client none reset_windows []).1 in
    (sent ≡ []) ⊎ (Vms.Authorised reset_windows none × Vms.Sends vm_client reset_windows sent)
vm_action-Sends_example = Vms.vm_action-Sends vm_client none reset_windows

abbrev array_client : Executor ArrayAction.Operation ArrayAction.Reply
array_client sent (ArrayAction.set_state desired) = returned (u "STOPPED")

abbrev stop_array : ArrayAction.ArrayActionArgs
stop_array = record { response_format = concise; action = ArrayAction.stop; flags = both_flags }

array_action-Sends_example :
    let sent = (ArrayAction.array_action array_client none stop_array []).1 in
    (sent ≡ [])
    ⊎ (RiskAccepted both_flags ArrayAction.stop_message none
        × (sent ≡ ArrayAction.set_state ArrayAction.state_stop ∷ []))
array_action-Sends_example = Arrays.array_action-Sends array_client none stop_array

abbrev parity_client : Executor ParityCheck.Operation ParityCheck.Reply
parity_client sent op = returned tt

abbrev correcting : ParityCheck.ParityCheckArgs
correcting = record {
  response_format = concise;
  action = ParityCheck.start;
  correct = some true;
  confirm = some true;
}

parity_check-Sends_example :
    let sent = (ParityCheck.parity_check parity_client none correcting []).1 in
    (sent ≡ [])
    ⊎ (Parity.IsConsistent correcting
        × Confirmed (some true) (ParityCheck.describe_action correcting) none
        × Parity.Sends ParityCheck.start (some true) sent)
parity_check-Sends_example = Parity.parity_check-Sends parity_client none correcting

abbrev disk_client : Executor ArrayDiskAction.Operation ArrayDiskAction.Reply
disk_client sent ArrayDiskAction.probe_state = returned ArrayDiskAction.started
disk_client sent (ArrayDiskAction.disk_add id slot) = returned tt
disk_client sent (ArrayDiskAction.disk_mount id) = returned tt
disk_client sent (ArrayDiskAction.disk_unmount id) = returned tt
disk_client sent (ArrayDiskAction.disk_clear_stats id) = returned tt

abbrev unmount_disk : ArrayDiskAction.ArrayDiskActionArgs
unmount_disk = record {
  response_format = concise;
  action = ArrayDiskAction.unmount;
  id = u "srv:disk1";
  slot = none;
  flags = both_flags;
}

array_disk_action-Sends_example :
    let sent = (ArrayDiskAction.array_disk_action disk_client none unmount_disk []).1 in
    (sent ≡ []) ⊎ (Disks.IsAllowed unmount_disk none × Disks.Sends disk_client unmount_disk sent)
array_disk_action-Sends_example = Disks.array_disk_action-Sends disk_client none unmount_disk

abbrev plex : DockerAutostartSet.Container
plex = record {
  id = u "c1";
  names = u "/plex" ∷ [];
  auto_start = false;
  auto_start_wait = none;
  auto_start_order = none;
}

abbrev nginx : DockerAutostartSet.Container
nginx = record {
  id = u "c2";
  names = u "/nginx" ∷ [];
  auto_start = true;
  auto_start_wait = some 5;
  auto_start_order = some 0;
}

abbrev containers : List DockerAutostartSet.Container
containers = plex ∷ nginx ∷ []

abbrev plex_on : List DockerAutostartSet.Change
plex_on = record { id = u "c1"; auto_start = true; wait = some 10 } ∷ []

abbrev autostart_client : Executor DockerAutostartSet.Operation DockerAutostartSet.Reply
autostart_client sent DockerAutostartSet.read_state = returned containers
autostart_client sent (DockerAutostartSet.set_autostart entries persist) = returned true

abbrev start_plex : DockerAutostartSet.AutostartArgs
start_plex = record {
  response_format = concise;
  changes = plex_on;
  persist = false;
  confirm = some true;
}

docker_autostart_set-Sends_example :
    let sent = (DockerAutostartSet.docker_autostart_set autostart_client none start_plex []).1 in
    (sent ≡ [])
    ⊎ (Confirmed (some true) (u "change Docker autostart configuration") none
        × Autostart.Sends autostart_client start_plex sent)
docker_autostart_set-Sends_example =
    Autostart.docker_autostart_set-Sends autostart_client none start_plex

build_entries-IsComplete_example :
    Order.IsComplete containers plex_on (DockerAutostartSet.build_entries containers plex_on)
build_entries-IsComplete_example = Order.build_entries-IsComplete containers plex_on

changes_applied_example :
    let entry =
      DockerAutostartSet.merge_entry plex (DockerAutostartSet.change_by_id plex_on (u "c1")) in
    All (λ change. change.id ≡ u "c1" → entry ≡ Merged.changed plex change) plex_on
    × (All (λ other. text_eq (u "c1") other ≡ false) (u "c1" ∷ []) → entry ≡ Merged.unchanged plex)
unfolding text_eq member u
changes_applied_example =
    Autostart.changes_applied plex_on containers plex
      ((Autostart.validate_changes_iff plex_on containers).1 ((tt, tt), (refl, tt)))

abbrev no_counts : NotificationDelete.Counts
no_counts = record { info = 0; warning = 0; alert = 0; total = 0 }

abbrev delete_client : Executor NotificationDelete.Operation NotificationDelete.Reply
delete_client sent op = returned (record { unread_counts = no_counts; archive_counts = no_counts })

abbrev delete_one_note : NotificationDelete.DeleteArgs
delete_one_note = record {
  response_format = concise;
  scope = NotificationDelete.one;
  id = some (u "n1");
  kind = some NotificationDelete.unread;
  confirm = some true;
}

notification_delete_sends_example :
    let sent = (NotificationDelete.notification_delete delete_client none delete_one_note []).1 in
    (sent ≡ [])
    ⊎ (Confirmed (some true) (NotificationDelete.describe_delete NotificationDelete.one) none
        × Deletion.Deletes delete_one_note sent)
notification_delete_sends_example =
    Deletion.notification_delete_sends delete_client none delete_one_note

register_all_tools_iff_example : member (u "VmList") (Registry.register_all_tools true) ≡ true
unfolding u text_eq
register_all_tools_iff_example = (Offers.register_all_tools_iff true (u "VmList")).1 (inl refl)

abbrev plugin_client : Executor PluginChange.Operation PluginChange.Reply
plugin_client sent op = returned false

abbrev add_lodash : PluginChange.PluginNamesInput
add_lodash = record { response_format = concise; names = u "lodash" ∷ []; confirm = some true }

change_plugin_writes_example :
    let sent = (PluginChange.change_plugin plugin_client PluginChange.add none add_lodash []).1 in
    (sent ≡ [])
    ⊎ (All (λ name. PluginChange.names_spec name ≡ true) (u "lodash" ∷ [])
        × Confirmed
            (some true)
            (PluginChange.describe_change PluginChange.add (u "lodash" ∷ []))
            none
        × (sent ≡ PluginChange.change_plugins PluginChange.add (u "lodash" ∷ []) ∷ []))
change_plugin_writes_example =
    Plugins.change_plugin_writes plugin_client PluginChange.add none add_lodash

abbrev key_client : Executor ApikeyManage.Operation ApikeyManage.Reply
key_client sent (ApikeyManage.create_key name description roles) = thrown (u "forbidden")
key_client sent (ApikeyManage.update_key id name description roles) = thrown (u "forbidden")
key_client sent (ApikeyManage.add_role_to id role) = returned true
key_client sent (ApikeyManage.remove_role_from id role) = returned true
key_client sent (ApikeyManage.delete_keys ids) = returned true

abbrev add_viewer : ApikeyManage.ApiKeyManageArgs
add_viewer = record {
  action = ApikeyManage.add_role;
  name = none;
  description = none;
  roles = some (ApikeyManage.viewer ∷ []);
  id = some (u "k1");
  ids = none;
  flags = both_flags;
}

apikey_manage_lem_example :
    let p = ApikeyManage.apikey_manage key_client none add_viewer [] in
    ((p.1 ≡ []) × (is_success p.0 ≡ false))
    ⊎ (RiskAccepted both_flags (ApikeyManage.refusal_message add_viewer) none
        × (op : ApikeyManage.Operation) × Keys.Asked ApikeyManage.add_role add_viewer op
        × Keys.Settles key_client op p)
apikey_manage_lem_example = Keys.apikey_manage_lem key_client none add_viewer
