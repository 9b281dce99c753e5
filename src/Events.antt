-- ===== src/Events.antt =====
-- modules/events-outbox-jobs: the outbox, the dispatcher and the scheduler.
pub mod Identifier
pub mod Outbox
pub mod Dispatcher
pub mod Scheduler
