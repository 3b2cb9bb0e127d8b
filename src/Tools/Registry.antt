-- ===== src/Tools/Registry.antt =====
-- tools/registry.ts: the table of all tools, and which of them a server offers. A tool is known by the
-- name of its register function without the prefix `register`.
pub mod Laws
use better_unraid_mcp.Base.{Text, u, List, [], ◌∷◌, Bool, true, false, ◌&&◌, if◌then◌else◌}

pub record ToolRegistration : Type 0 where
  pub is_mutating : Bool
  pub tool : Text

-- A tool that changes nothing, and one that changes the server's state.
abbrev reads : Text → ToolRegistration
reads tool = record { is_mutating = false; tool = tool }

abbrev mutates : Text → ToolRegistration
mutates tool = record { is_mutating = true; tool = tool }

-- `TOOL_REGISTRATIONS`, in the order of registration.
abbrev pub tool_registrations : List ToolRegistration
tool_registrations =
    reads (u "SystemInfo")
    ∷ reads (u "SystemMetrics")
    ∷ reads (u "MetricsHistory")
    ∷ reads (u "LogList")
    ∷ reads (u "LogRead")
    ∷ reads (u "ArrayStatus")
    ∷ mutates (u "ArrayAction")
    ∷ mutates (u "ArrayDiskAction")
    ∷ reads (u "ParityHistory")
    ∷ mutates (u "ParityCheck")
    ∷ reads (u "DiskList")
    ∷ reads (u "ShareList")
    ∷ mutates (u "DockerAutostartSet")
    ∷ mutates (u "DockerContainerAction")
    ∷ reads (u "DockerContainerList")
    ∷ reads (u "DockerContainerLogs")
    ∷ mutates (u "DockerContainerRemove")
    ∷ mutates (u "DockerContainerUpdate")
    ∷ reads (u "DockerNetworkList")
    ∷ reads (u "DockerPortConflicts")
    ∷ reads (u "VmList")
    ∷ mutates (u "VmAction")
    ∷ reads (u "NotificationOverview")
    ∷ reads (u "NotificationList")
    ∷ reads (u "NotificationAlerts")
    ∷ mutates (u "NotificationArchive")
    ∷ mutates (u "NotificationUnread")
    ∷ mutates (u "NotificationDelete")
    ∷ mutates (u "NotificationCreate")
    ∷ mutates (u "NotificationRecalculate")
    ∷ reads (u "PluginList")
    ∷ mutates (u "PluginAdd")
    ∷ mutates (u "PluginRemove")
    ∷ mutates (u "PluginInstallPlg")
    ∷ reads (u "ApiKeyList")
    ∷ mutates (u "ApiKeyManage")
    ∷ reads (u "UpsStatus")
    ∷ reads (u "MoverStatus")
    ∷ mutates (u "MoverAction")
    ∷ mutates (u "SystemPower")
    ∷ reads (u "SystemHealth")
    ∷ mutates (u "DiskSpin")
    ∷ reads (u "DiskSmartReport")
    ∷ reads (u "VmSnapshotList")
    ∷ mutates (u "VmSnapshotCreate")
    ∷ reads (u "UserScriptList")
    ∷ mutates (u "UserScriptRun")
    ∷ reads (u "GpuMetrics")
    ∷ reads (u "ProcessList")
    ∷ reads (u "ZfsStatus")
    ∷ reads (u "ZfsDatasetList")
    ∷ reads (u "ZfsSnapshotList")
    ∷ mutates (u "ZfsSnapshotAction")
    ∷ mutates (u "FlashBackup")
    ∷ reads (u "ServiceList")
    ∷ mutates (u "ServiceAction")
    ∷ reads (u "UnassignedList")
    ∷ mutates (u "UnassignedAction")
    ∷ mutates (u "ShareCreate")
    ∷ mutates (u "ShareEdit")
    ∷ mutates (u "ShareDelete")
    ∷ reads (u "DockerStats")
    ∷ reads (u "FileRead")
    ∷ mutates (u "ShellExec")
    ∷ reads (u "GraphqlQuery")
    ∷ mutates (u "GraphqlMutation")
    ∷ reads (u "ConnectionDoctor")
    ∷ []

-- The loop of `registerAllTools`: the tools that are registered, in order.
pub register_each : Bool → List ToolRegistration → List Text
register_each read_only [] = []
register_each read_only (registration ∷ registrations) =
    if read_only && registration.is_mutating
    then register_each read_only registrations
    else registration.tool ∷ register_each read_only registrations

pub register_all_tools : Bool → List Text
unfolding register_each
register_all_tools read_only = register_each read_only tool_registrations
