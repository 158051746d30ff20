-- ===== src/Feasibility.antt =====
-- The feasibility of a witness path: goplint/cfa_feasibility_ssa_constraints.go,
-- goplint/cfa_ssa_constraints.go and the cancellation contract of goplint/cfa_feasibility.go.
pub mod Control
pub mod Constraint
pub mod Semantics
pub mod Formula
pub mod Evidence
