-- ===== src/Cases.antt =====
-- domain/cases/: the case, clock and workflow engine.
pub mod Kernel
pub mod Models
pub mod Clock
pub mod StateMachine
pub mod Assessment
pub mod LocalPorts
pub mod CloudPorts
pub mod SampleWorkflows
pub mod Trail
pub mod Escalation
pub mod Workflow
