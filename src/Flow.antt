-- ===== src/Flow.antt =====
-- crates/flow/src/flow_graph.rs: the execution of a flow.
pub mod Track
pub mod Command
pub mod State
pub mod Build
pub mod Config
pub mod Ready
pub mod Inputs
pub mod Outputs
pub mod Bundle
pub mod Transactions
pub mod Result
pub mod Execute
pub mod Partial
pub mod Run
pub mod Invariant
pub mod Steps
mod Tests
mod ExecuteTests
mod RunTests
mod BuildTests
pub mod Stop
