-- ===== src/Samples.antt =====
-- Tests of the models at concrete inputs, and the theorems at inputs that meet their hypotheses.
mod ProtocolRuns
mod SummaryRuns
mod FeasibilityRuns
mod WitnessRuns
mod SchedulerRuns
mod TabulationRuns
mod WorkGroupRuns
mod RefinementRuns
mod PlanRuns
mod OracleRuns
mod AntichainRuns
mod PolicyRuns
mod SolverRuns
