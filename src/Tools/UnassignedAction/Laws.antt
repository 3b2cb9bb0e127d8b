-- ===== src/Tools/UnassignedAction/Laws.antt =====
-- What `unassigned_action` runs on the host, and what its success shows.
use better_unraid_mcp.Base.{◌≡◌, ◌⊎◌, Text, List, [], ◌∷◌, true, Option}
use better_unraid_mcp.Effects.{returned}
use better_unraid_mcp.Json.{Json}
use better_unraid_mcp.Tools.Ssh.{ShellCommand, ShellResult, ShellExecutor}
use better_unraid_mcp.Tools.Ssh.Laws.{Succeeds}
use better_unraid_mcp.Tools.UnassignedAction.{
  MountAction, mount, unmount, UnassignedActionArgs, plugin_command, disks_command, ud_command,
  mountpoint_command, is_unassigned,
}
use better_unraid_mcp.Tools.UnassignedAction.Mountpoint.{HasMount}

-- The map of the devices was read, and the partition's disk is not in it.
abbrev pub Free : ShellExecutor → UnassignedActionArgs → Type 0
Free shell args =
    (disks_ini : ShellResult) × (shell (plugin_command ∷ []) disks_command ≡ returned disks_ini)
    × (is_unassigned args.device disks_ini ≡ true)

abbrev pub lookups : List ShellCommand
lookups = disks_command ∷ plugin_command ∷ []

-- The action was sent: alone, or it succeeded and the mount point was read back.
abbrev pub Acts : ShellExecutor → UnassignedActionArgs → List ShellCommand → Type 0
Acts shell args sent =
    (sent ≡ ud_command args ∷ lookups)
    ⊎ (Succeeds shell lookups (ud_command args)
        × (sent ≡ mountpoint_command args.device ∷ ud_command args ∷ lookups))

-- What an authorised call has sent.
abbrev pub Runs : ShellExecutor → UnassignedActionArgs → List ShellCommand → Type 0
Runs shell args sent =
    (sent ≡ plugin_command ∷ [])
    ⊎ (Succeeds shell [] plugin_command
        × ((sent ≡ lookups) ⊎ (Free shell args × Acts shell args sent)))

-- What the look at the mount point must show: for a mount a mount point, for an unmount none.
abbrev pub Shows : MountAction → Option Json → Type 0
Shows mount parsed = (value : Json) × HasMount parsed value
Shows unmount parsed = ¬ ((value : Json) × HasMount parsed value)

-- The action was accepted, the look at the mount point came after it and was answered, and the answer shows
-- what it must. An answer that is no JSON shows no mount point.
abbrev pub Verified : (Text → Option Json) → ShellExecutor → UnassignedActionArgs → Type 0
Verified json_parse shell args =
    Succeeds shell lookups (ud_command args)
    × (listed : ShellResult) × (shell (ud_command args ∷ lookups) (mountpoint_command args.device)
        ≡ returned listed)
    × Shows args.action (json_parse listed.stdout)
