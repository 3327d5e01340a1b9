-- ===== src/Samples.antt =====
-- Concrete inputs, and the theorems at them.
pub mod Inputs
pub mod Tests
pub mod Policy
pub mod Operator
pub mod Passes
pub mod Memory
pub mod Store
pub mod Startup
pub mod Copying
