-- ===== src/Shell.antt =====
-- shell/: the executor of commands on the host.
pub mod Executor
