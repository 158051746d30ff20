-- ===== src/Summary.antt =====
-- goplint/cfa_summary.go: the summary of a callee for one target, and what it says of the state in
-- which the caller goes on. A slot of -1 is `none`.
pub mod Effect
pub mod Continuation
pub mod Transfer
