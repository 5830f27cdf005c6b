-- ===== src/Tests.antt =====
-- Small inputs, what the program does on them, and the theorems at such inputs.
mod Samples
mod Store
mod DagTests
mod PhaseTests
mod LocalTests
mod QueueTests
mod ControllerTests
mod BudgetTests
mod EnvTests
mod Triggers
mod ConfigTests
mod RunnerTests
mod AgentTests
mod CommandTests
mod EventTests
mod WebhookTests
