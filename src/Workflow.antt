-- ===== src/Workflow.antt =====
-- The workflow engine, modules/workflow-action/workflow.go.
pub mod State
pub mod Engine
pub mod Guards
pub mod Run
pub mod Terminal
pub mod Audit
pub mod Retry
pub mod Gaps
pub mod Diagram
mod Tests
