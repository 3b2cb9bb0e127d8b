-- ===== src/Tests/Commands.antt =====
-- The tools that run commands on the host, at concrete arguments and replies.
use better_unraid_mcp.Base.{
  ℕ, ◌+◌, max, min, ◌≡◌, refl, ◌⊎◌, ◌≤◌, Text, u, List, [], ◌∷◌, ◌++◌, true, false, none, some, map,
  ◌↔◌, Option, join, split_on, length, starts_with, is_alnum, arith,
}
use better_unraid_mcp.Effects.{returned, thrown}
use better_unraid_mcp.Json.{Json, str, arr, obj, nil, cons, end, field}
use better_unraid_mcp.Respond.{concise}
use better_unraid_mcp.Gate.{RiskGateFlags}
use better_unraid_mcp.Gate.Laws.{RiskAccepted, Confirmed}
use better_unraid_mcp.Graphql.MetricRing
use better_unraid_mcp.Graphql.MetricRing.Laws as Ring
use better_unraid_mcp.Graphql.MetricRing.Refinement
use better_unraid_mcp.Shell.Executor
use better_unraid_mcp.Shell.Executor.Liveness
use better_unraid_mcp.Tools.QuoteShell
use better_unraid_mcp.Tools.QuoteShell.Reader
use better_unraid_mcp.Tools.QuoteShell.Laws as Quoting
use better_unraid_mcp.Tools.Ssh.{ShellExecutor, is_success}
use better_unraid_mcp.Tools.Ssh.Laws.{Succeeds}
use better_unraid_mcp.Tools.ServiceAction
use better_unraid_mcp.Tools.ServiceAction.Laws as Services
use better_unraid_mcp.Tools.ZfsSnapshotAction
use better_unraid_mcp.Tools.ZfsSnapshotAction.Laws as Snapshots
use better_unraid_mcp.Tools.SystemPower
use better_unraid_mcp.Tools.SystemPower.Laws as Power
use better_unraid_mcp.Tools.DiskSpin
use better_unraid_mcp.Tools.DiskSpin.Laws as Spins
use better_unraid_mcp.Tools.UserScriptRun
use better_unraid_mcp.Tools.UserScriptRun.Laws as Scripts
use better_unraid_mcp.Tools.SystemHealth
use better_unraid_mcp.Tools.SystemHealth.Laws as Health
use better_unraid_mcp.Tools.UnassignedAction
use better_unraid_mcp.Tools.UnassignedAction.Laws as Unassigned
use better_unraid_mcp.Tools.Share.Name
use better_unraid_mcp.Tools.Share.Name.Laws as Names
use better_unraid_mcp.Tools.Share.Query
use better_unraid_mcp.Tools.Share.Write
use better_unraid_mcp.Tools.Share.Write.Laws as Creation
use better_unraid_mcp.Tools.Share.Write.Edit
use better_unraid_mcp.Tools.Share.WriteFlow.Laws as Flow
use better_unraid_mcp.Tools.Share.Delete
use better_unraid_mcp.Tools.Share.Delete.Laws as Deletion
use better_unraid_mcp.Tools.Share.Delete.Form

abbrev both_flags : RiskGateFlags
both_flags = record { confirm = some true; acknowledge_risk = some true }

-- A host on which every command prints one line and exits with code 0.
abbrev answering : Text → ShellExecutor
answering line sent op = returned (record { stdout = line; stderr = []; exit_code = some 0 })

words-quote_for_shell_example :
    Reader.words (join (u " ") (map QuoteShell.quote_for_shell (u "rm" ∷ u "it's $HOME; x" ∷ [])))
    ≡ some (u "rm" ∷ u "it's $HOME; x" ∷ [])
words-quote_for_shell_example = Quoting.words-quote_for_shell (u "rm" ∷ u "it's $HOME; x" ∷ [])

abbrev restart_samba : ServiceAction.ServiceActionArgs
restart_samba = record {
  response_format = none;
  service = ServiceAction.samba;
  action = ServiceAction.restart;
  allow_stop = none;
  flags = both_flags;
}

service_action_lem_example :
    let p =
      ServiceAction.service_action
        (some (answering (u "Samba is currently running.")))
        none
        restart_samba
        [] in
    ((p.1 ≡ [])
      ⊎ (Services.Authorised restart_samba none
          × Services.Sends (answering (u "Samba is currently running.")) restart_samba p.1))
    × ((is_success p.0 ≡ false)
        ⊎ Services.Verified (answering (u "Samba is currently running.")) restart_samba)
service_action_lem_example =
    Services.service_action_lem (answering (u "Samba is currently running.")) none restart_samba

abbrev destroy_nightly : ZfsSnapshotAction.SnapshotActionArgs
destroy_nightly = record {
  action = ZfsSnapshotAction.destroy;
  dataset = u "tank/media";
  snapshot = u "nightly";
  flags = both_flags;
}

zfs_snapshot_action_lem_example :
    let sent =
      (ZfsSnapshotAction.zfs_snapshot_action (some (answering (u ""))) none destroy_nightly []).1 in
    (sent ≡ [])
    ⊎ ((ZfsSnapshotAction.names_valid destroy_nightly ≡ true)
        × RiskAccepted both_flags (ZfsSnapshotAction.refusal_message destroy_nightly) none
        × Snapshots.IsOneTarget destroy_nightly
        × ((sent ≡ ZfsSnapshotAction.probe_command ∷ [])
            ⊎ (Succeeds (answering (u "")) [] ZfsSnapshotAction.probe_command
                × (sent
                    ≡ ZfsSnapshotAction.zfs_command destroy_nightly
                      ∷ ZfsSnapshotAction.probe_command
                      ∷ []))))
zfs_snapshot_action_lem_example =
    Snapshots.zfs_snapshot_action_lem (answering (u "")) none destroy_nightly

abbrev reboot_now : SystemPower.SystemPowerArgs
reboot_now = record { action = SystemPower.reboot; flags = both_flags }

-- The channel dies after the command was sent.
abbrev dropping : ShellExecutor
dropping sent op = thrown (u "Timed out after 15000 ms trying to run the command over SSH.")

system_power-Outcome_example :
    Power.Outcome dropping none reboot_now
      (SystemPower.system_power (some dropping) none reboot_now [])
system_power-Outcome_example = Power.system_power-Outcome dropping none reboot_now

abbrev spin_down : DiskSpin.DiskSpinArgs
spin_down = record {
  action = DiskSpin.down;
  disk = some (u "disk1");
  device = none;
  confirm = some true;
}

disk_spin_lem_example :
    let sent = (DiskSpin.disk_spin (some (answering (u ""))) none spin_down []).1 in
    (sent ≡ [])
    ⊎ ((DiskSpin.validate_target spin_down ≡ none)
        × Confirmed (some true) (DiskSpin.describe spin_down) none
        × (Reader.words (DiskSpin.build_command spin_down)
            ≡ some (Spins.intended DiskSpin.down (some (u "disk1")) none))
        × (sent ≡ DiskSpin.spin_command spin_down ∷ []))
disk_spin_lem_example = Spins.disk_spin_lem (answering (u "")) none spin_down

abbrev run_backup : UserScriptRun.UserScriptRunArgs
run_backup = record {
  response_format = concise;
  name = u "nightly backup";
  timeout_seconds = 60;
  flags = both_flags;
}

user_script_run_lem_example :
    let sent = (UserScriptRun.user_script_run (some (answering (u "done"))) none run_backup []).1 in
    (sent ≡ [])
    ⊎ ((UserScriptRun.name_valid (u "nightly backup") ≡ true)
        × RiskAccepted both_flags (UserScriptRun.refusal_message (u "nightly backup")) none
        × (Reader.words (UserScriptRun.build_runner (u "nightly backup"))
            ≡ some ((u "S=" ++ UserScriptRun.script_path (u "nightly backup")) ∷ []))
        × Scripts.IsOwnFolder (u "nightly backup")
        × (sent ≡ UserScriptRun.run_command run_backup ∷ []))
user_script_run_lem_example = Scripts.user_script_run_lem (answering (u "done")) none run_backup

abbrev comment_only : Query.ShareSettings
comment_only = record {
  comment = some (u "films");
  allocator = none;
  use_cache = none;
  cache_pool = none;
  smb_export = none;
  smb_security = none;
}

abbrev write_media : Write.ShareWriteArgs
write_media = record { name = u "media"; settings = comment_only; flags = both_flags }

abbrev cfg_host : ShellExecutor
cfg_host = answering (u "shareComment=\"films\"\n")

share_edit_lem_example :
    let p = Write.share_edit (some cfg_host) none write_media [] in
    ((p.1 ≡ [])
      ⊎ ((Name.validate_share_name (u "media") ≡ none)
          × (Write.has_changes comment_only ≡ true)
          × RiskAccepted both_flags (Write.edit_message (u "media")) none
          × Edit.Edits cfg_host write_media p.1))
    × ((is_success p.0 ≡ false)
        ⊎ ((current : List (Text × Text)) × Creation.Found cfg_host write_media (some current)
            × Creation.Allowed cfg_host write_media
            × Flow.Verified cfg_host
                (Write.edit_input write_media current)
                (Creation.lookups write_media)))
share_edit_lem_example = Edit.share_edit_lem cfg_host none write_media

abbrev delete_media : Delete.ShareDeleteArgs
delete_media = record { name = u "media"; flags = both_flags }

share_delete_lem_example :
    let p = Delete.share_delete (some cfg_host) none delete_media [] in
    ((p.1 ≡ [])
      ⊎ ((Name.validate_share_name (u "media") ≡ none)
          × RiskAccepted both_flags (Delete.delete_message (u "media")) none
          × Deletion.Deletes cfg_host (u "media") p.1))
    × ((is_success p.0 ≡ false) ⊎ Deletion.Gone cfg_host (u "media"))
share_delete_lem_example = Deletion.share_delete_lem cfg_host none delete_media

delete_form_lem_example :
    (full : Text) × (Query.build_edit_query (Delete.delete_input (u "media")) ≡ some full)
    × (split_on b'&' (Delete.delete_query_only full)
        ≡ (u "shareName=" ++ u "media")
          ∷ (u "shareNameOrig=" ++ u "media")
          ∷ u "cmdEditShare=Delete"
          ∷ [])
unfolding Name.validate_share_name u is_alnum starts_with
delete_form_lem_example = Form.delete_form_lem (u "media") refl

share_cfg_path_lem_example :
    (split_on b'/' (Name.share_cfg_path (u "media"))
      ≡ u "" ∷ u "boot" ∷ u "config" ∷ u "shares" ∷ (u "media" ++ u ".cfg") ∷ [])
    × (1 ≤ length (u "media"))
    × (length (u "media") ≤ 40)
    × (starts_with (u "media") (u ".") ≡ false)
unfolding Name.validate_share_name u is_alnum starts_with
share_cfg_path_lem_example = Names.share_cfg_path_lem (u "media") refl

abbrev numbers : MetricRing.Values ℕ
numbers = record { least = min; greatest = max; plus = λ a b. a + b }

abbrev samples : List (List (Text × ℕ) × ℕ)
samples =
    ((u "cpu", 30) ∷ [], 100000) ∷ ((u "cpu", 20) ∷ [], 65000) ∷ ((u "cpu", 10) ∷ [], 61000) ∷ []

held-Refines_example :
    Refinement.held 2 (Ring.add_all numbers samples MetricRing.empty_ring)
    ≡ Refinement.tabled numbers 2 samples
held-Refines_example =
    Refinement.held-Refines numbers 2 samples
      ((omega arith, omega arith), ((omega arith, omega arith), ((omega arith, omega arith), tt)))

abbrev full : Executor.SshShellExecutor
full = record {
  connection = some 0;
  connecting = false;
  idle_timer = false;
  active_channels = 4;
  waiters = 5 ∷ 6 ∷ [];
}

abbrev events : List Liveness.Event
events = Liveness.returns ∷ Liveness.asks 7 ∷ Liveness.returns ∷ []

waiting-Occurs_example : Liveness.Occurs 6 (Liveness.resumed events full)
waiting-Occurs_example = Liveness.waiting-Occurs 6 (5 ∷ []) [] events full refl (omega arith)

abbrev cool_disk : SystemHealth.Disk
cool_disk = record { name = some (u "disk1"); status = some (u "DISK_OK"); temp = some 34 }

abbrev healthy : SystemHealth.HealthData
healthy = record {
  array = record {
    state = u "STARTED";
    total_kilobytes = 1000;
    used_kilobytes = 640;
    parities = cool_disk ∷ [];
    disks = cool_disk ∷ [];
    caches = [];
    parity_errors = 0;
    parity_running = some false;
  };
  unread_alerts = 0;
  unread_warnings = 0;
  updates = some false ∷ none ∷ [];
}

worst_severity-ok_iff_example :
    (SystemHealth.worst_severity
        (SystemHealth.checks healthy (SystemHealth.failure (u "no apcaccess")))
      ≡ SystemHealth.ok)
    ↔ Health.IsHealthy healthy (SystemHealth.failure (u "no apcaccess"))
worst_severity-ok_iff_example =
    Health.worst_severity-ok_iff healthy (SystemHealth.failure (u "no apcaccess"))

abbrev mount_sdz : UnassignedAction.UnassignedActionArgs
mount_sdz = record {
  response_format = none;
  action = UnassignedAction.mount;
  device = u "/dev/sdz1";
  flags = both_flags;
}

-- `{"blockdevices":[{"mountpoint":"/mnt/disks/backup"}]}`
abbrev mounted_json : Text → Option Json
mounted_json s = some (
    obj (
      field (u "blockdevices")
        (arr (cons (obj (field (u "mountpoint") (str (u "/mnt/disks/backup")) end)) nil)) end))
