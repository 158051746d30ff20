-- ===== src/Tabulation.antt =====
-- The interprocedural tabulation: goplint/cfa_ifds_tabulation.go.
pub mod Conditional
pub mod Facts
pub mod Antichain
pub mod Edges
pub mod Result
pub mod Problem
pub mod State
pub mod Calls
pub mod Targets
pub mod Visit
pub mod Solve
pub mod Runs
pub mod Growth
