-- ===== src/Flow.antt =====
-- internal/flow: the logic of a flow's execution, which the operator and the command line share.
pub mod Dag
pub mod Library
pub mod Template
pub mod Step
pub mod Phase
