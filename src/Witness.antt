-- ===== src/Witness.antt =====
-- The replay of interprocedural witnesses.
pub mod Graph
pub mod Replay
pub mod Realizable
