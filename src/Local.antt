-- ===== src/Local.antt =====
-- internal/ark and cmd/ark: the executor that runs a flow in one process, and the command line.
pub mod Steps
pub mod Executor
pub mod CommandLine
