-- ===== src/Controller.antt =====
-- internal/controller: the reconcilers.
pub mod Conditions
pub mod Budget
pub mod FlowSteps
pub mod FlowReconcile
pub mod Memory
pub mod Settings
pub mod Service
pub mod Deployment
pub mod AgentReconcile
pub mod Event
pub mod Webhook
pub mod AgentEnv
pub mod AgentWatch
