-- ===== src/Api.antt =====
-- The API types (api/v1alpha1): `Meta` has what the kinds share, and each other child one kind.
pub mod Meta
pub mod Flow
pub mod Event
pub mod Service
pub mod Settings
pub mod Memory
pub mod Agent
