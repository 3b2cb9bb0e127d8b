-- ===== src/Tools/Share.antt =====
-- tools/share/: the handlers of the tools `share_create`, `share_edit` and `share_delete`, with what they
-- share in _shared.ts and write-flow.ts.
pub mod Parse
pub mod Query
pub mod Name
pub mod WriteFlow
pub mod Write
pub mod Delete
