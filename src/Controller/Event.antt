-- ===== src/Controller/Event.antt =====
-- internal/controller/arkevent_controller.go: the triggers that dispatch flows.
pub mod Schedule
pub mod Fire
pub mod Status
pub mod Due
pub mod Sources
pub mod Reconcile
