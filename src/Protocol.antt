-- ===== src/Protocol.antt =====
-- The protocol-analysis domain of package goplint: what a path of the analysed program can do to a
-- validation obligation. goplint/protocol_domain.go, goplint/protocol_relevance.go,
-- goplint/cfa_ide_edgefunc.go and goplint/cfa_outcome.go.
pub mod Reason
pub mod Effects
pub mod State
pub mod Lattice
pub mod EdgeFunc
pub mod Validity
pub mod Decision
pub mod Relevance
pub mod PathReason
