-- ===== src/Tools/ZfsSnapshotAction.antt =====
-- tools/zfs/_shared.ts and zfs-snapshot-action.ts: the handler of the tool `zfs_snapshot_action`.
pub mod Laws
use better_unraid_mcp.Base.{
  ℕ, Text, u, [], ◌∷◌, ◌++◌, Bool, true, false, not, ◌&&◌, ◌||◌, Option, none, some, trim, is_alnum,
  ◌==◌, if◌then◌else◌,
}
use better_unraid_mcp.Effects.{Action, pure, ◌>>=◌, execute, try_catch, guarded}
use better_unraid_mcp.Respond.{ToolResult, tool_error, tool_text}
use better_unraid_mcp.Gate.{
  ElicitationChannel, RiskGateFlags, require_risk_acknowledgement_interactive,
}
use better_unraid_mcp.Tools.QuoteShell.{quote_for_shell}
use better_unraid_mcp.Tools.Ssh.{
  ShellCommand, ShellResult, ShellExecutor, succeeded, exit_text, or_text, with_shell,
  refuse_unless,
}

-- `[A-Za-z0-9._:-]`
unfoldable pub is_name_char : ℕ → Bool
is_name_char c = is_alnum c || (c == b'.' || (c == b'_' || (c == b':' || c == b'-')))

-- What is left of a dataset name, and whether its current segment has a character.
pub dataset_rest : Bool → Text → Bool
unfolding is_name_char
dataset_rest started [] = started
dataset_rest started (c ∷ s) =
    let rest = dataset_rest (not (c == b'/')) s in
    if c == b'/' then started && rest else is_name_char c && rest

-- `DATASET_PATTERN.test(name)`
unfoldable pub dataset_pattern : Text → Bool
unfolding dataset_rest
dataset_pattern name = dataset_rest false name

pub name_rest : Text → Bool
unfolding is_name_char
name_rest [] = true
name_rest (c ∷ s) = is_name_char c && name_rest s

-- `SNAPSHOT_NAME_PATTERN.test(name)`
unfoldable pub snapshot_name_pattern : Text → Bool
unfolding name_rest
snapshot_name_pattern [] = false
snapshot_name_pattern (c ∷ s) = name_rest (c ∷ s)

pub data SnapshotAction : Type 0 where
  create destroy rollback : SnapshotAction

pub record SnapshotActionArgs : Type 0 where
  pub action : SnapshotAction
  pub dataset : Text
  pub snapshot : Text
  pub flags : RiskGateFlags

action_text : SnapshotAction → Text
action_text create = u "create"
action_text destroy = u "destroy"
action_text rollback = u "rollback"

consequence : SnapshotAction → Text
consequence create = u "creates a new snapshot (cheap, but pins space as data changes)"
consequence destroy = u "PERMANENTLY deletes the snapshot and the rollback point it provides"
consequence rollback =
    u "DISCARDS every change to the dataset made after the snapshot — files written since are lost"

pub snapshot_target : SnapshotActionArgs → Text
snapshot_target args = args.dataset ++ (u "@" ++ args.snapshot)

pub refusal_message : SnapshotActionArgs → Text
unfolding consequence action_text
refusal_message args =
    u "Refusing to "
    ++ (action_text args.action
        ++ (u " ZFS snapshot "
            ++ (args.dataset
                ++ (u "@"
                    ++ (args.snapshot
                        ++ (u ": this "
                            ++ (consequence args.action
                                ++ u
                                    ". Re-call with \"confirm\": true and \"acknowledge_risk\": true to proceed. No changes were made.")))))))

pub subcommand : SnapshotAction → Text
subcommand create = u "snapshot"
subcommand destroy = u "destroy"
subcommand rollback = u "rollback"

pub build_command : SnapshotActionArgs → Text
unfolding subcommand snapshot_target
build_command args =
    u "zfs " ++ (subcommand args.action ++ (u " " ++ quote_for_shell (snapshot_target args)))

abbrev pub probe_command : ShellCommand
probe_command = record { command = u "command -v zpool"; timeout_ms = 10000 }

pub zfs_missing_error : ToolResult
zfs_missing_error = tool_error (
    u
      "ZFS is not available on this server: the zpool command was not found. ZFS ships with Unraid 6.12+; on older releases this tool cannot work.")

pub zfs_command : SnapshotActionArgs → ShellCommand
zfs_command args = record { command = build_command args; timeout_ms = 30000 }

-- `if (missing) { return missing; }` after `probeZfs`.
pub probe_zfs : ShellExecutor → Action ShellCommand ToolResult → Action ShellCommand ToolResult
probe_zfs shell rest = do
  probe ← execute shell probe_command
  guarded (refuse_unless (succeeded probe) zfs_missing_error) rest

failed_error : SnapshotActionArgs → ShellResult → ToolResult
failed_error args result = tool_error (
    u "zfs "
    ++ (action_text args.action
        ++ (u " failed (exit "
            ++ (exit_text result ++ (u "): " ++ or_text (trim result.stderr) (u "(no output)"))))))

run_action : ShellExecutor → SnapshotActionArgs → Action ShellCommand ToolResult
unfolding probe_zfs failed_error
run_action shell args = probe_zfs shell (do
  result ← execute shell (zfs_command args)
  guarded (refuse_unless (succeeded result) (failed_error args result)) (
      pure (
        tool_text (
          u "ZFS snapshot "
          ++ (action_text args.action
              ++ (u " succeeded for "
                  ++ (snapshot_target args ++ u ". Verify with zfs_snapshot_list.")))))))

invalid_error : SnapshotActionArgs → ToolResult
invalid_error args = tool_error (
    u "Invalid dataset or snapshot name (dataset: "
    ++ (args.dataset ++ (u ", snapshot: " ++ (args.snapshot ++ u "). No changes were made."))))

-- Both name tests.
abbrev pub names_valid : SnapshotActionArgs → Bool
names_valid args = dataset_pattern args.dataset && snapshot_name_pattern args.snapshot

pub zfs_snapshot_action :
    Option ShellExecutor
    → Option ElicitationChannel
    → SnapshotActionArgs
    → Action ShellCommand ToolResult
unfolding run_action invalid_error
zfs_snapshot_action shell channel args = with_shell shell (λ host.
    guarded (refuse_unless (names_valid args) (invalid_error args)) (
      guarded (require_risk_acknowledgement_interactive args.flags (refusal_message args) channel) (
        try_catch (run_action host args) (λ message. tool_error (
          u "Failed to "
          ++ (action_text args.action ++ (u " ZFS snapshot over SSH: " ++ message)))))))
