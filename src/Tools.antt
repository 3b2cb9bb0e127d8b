-- ===== src/Tools.antt =====
-- tools/: the handlers of the state-changing tools, one module each.
pub mod VmAction
pub mod ArrayAction
pub mod ParityCheck
pub mod ArrayDiskAction
pub mod DockerAutostartSet
pub mod NotificationDelete
pub mod Registry
pub mod NotificationArchive
pub mod PluginChange
pub mod QuoteShell
pub mod Ssh
pub mod ServiceAction
pub mod ZfsSnapshotAction
pub mod SystemPower
pub mod MoverAction
pub mod DiskSpin
pub mod UserScriptRun
pub mod Share
pub mod SystemHealth
pub mod ApikeyManage
pub mod RawGraphql
pub mod UnassignedAction
