-- ===== src/Lib.antt =====
-- goplint is an analyser that reports constructor and validation protocols that a Go program
-- breaks. This library models the parts of it that decide what is reported, and proves them
-- correct.
--
-- The parts:
-- * Protocol is the domain of the analysis (goplint/protocol_domain.go,
--   goplint/protocol_relevance.go, goplint/cfa_ide_edgefunc.go, the reasons of
--   goplint/cfa_outcome.go). Protocol/State has `protocolAbstractState` and its methods,
--   Protocol/Reason the reasons and their bits, Protocol/Effects the effect and identity words,
--   Protocol/Relevance `protocolRelevanceQuery.relevant`, Protocol/EdgeFunc the edge functions
--   that the interprocedural solver applies, composes and joins, Protocol/Decision
--   `aggregateProtocolPaths`. Protocol/Lattice, Protocol/Validity, Protocol/PathReason and the
--   modules under Protocol/EdgeFunc and Protocol/Decision are proofs.
-- * Summary is what the analysis knows of a callee (goplint/cfa_summary.go, the effects of
--   goplint/protocol_summary_fact.go, goplint/protocol_recursive_validation.go). Summary/Effect
--   has the published effects, Summary/Continuation what a caller makes of a list of them, in the
--   states of Protocol, and Summary/Transfer the transfers that summarise recursive functions.
-- * Feasibility decides whether a witness path can be taken
--   (goplint/cfa_feasibility_ssa_constraints.go, the formulas of goplint/cfa_ssa_constraints.go,
--   the control of goplint/cfa_feasibility.go). Feasibility/Constraint has the comparison
--   constraints, Feasibility/Formula the formulas, Feasibility/Evidence the search for a
--   certificate and its checker. Feasibility/Semantics says what they mean, and
--   Feasibility/Evidence/Aliases what becomes of two spellings of one constant.
-- * Witness replays the path that a finding rests on (goplint/cfa_witness_contribution.go, with
--   the nodes and edges of goplint/cfa_interproc_graph.go). Witness/Graph has the supergraph as
--   far as it is read and the witness edges, Witness/Replay the replay with its call stack.
--   Witness/Realizable tells realizable paths without a stack.
-- * Tabulation has the conditional edge functions that the interprocedural solver composes along
--   paths and callees (goplint/cfa_ifds_tabulation.go), made of edge functions of Protocol.
--   Tabulation/Antichain queues a path edge against the witnesses that its contribution retains,
--   of the edges of Witness. Tabulation/Facts has the facts under which path edges, dependencies
--   and summaries are kept, Tabulation/Edges what the solver asks the supergraph for
--   (goplint/cfa_interproc_graph.go), Tabulation/Result the choice between results
--   (goplint/cfa_ifds_solver.go) and Tabulation/Problem the arguments of
--   runIFDSPropagationWithStatsOptions with what it makes of a node and an edge. Its variables
--   are in Tabulation/State, its closures in Tabulation/Calls, a round of its loop in
--   Tabulation/Targets and Tabulation/Visit, and the loop in Tabulation/Solve. The seams by which
--   tests reorder its queue or inject evidence leave normal controls as they are, and are left
--   out. A key is a text of fields there; here two facts are the same if their fields are, and
--   their keys give the order. Tabulation/Runs says what the runs of a supergraph are, and the
--   modules of Tabulation/Growth prove the solver against them: what one step leaves behind, then
--   a round, the loop and the result.
-- * Scheduler is the scheduler of the soundness gate (internal/soundnessgate/scheduler.go).
--   Scheduler has the admission test and the accounts, Scheduler/Loop the loop of `schedulePlan`
--   as a relation of steps: its pass over the pending commands, the completion of any running
--   command, and the end of its context.
-- * WorkGroups cuts the work units of race and repeat runs into groups
--   (internal/racerepeat/groups.go), and WorkGroups/Shards the timing entries of a run into
--   shards (internal/racerepeat/shards.go).
-- * Plan validates the dependencies of an execution plan (internal/soundnessgate/plan_model.go,
--   with the identifiers of internal/soundnessgate/model.go). Plan/Visiting and Plan/Cycles are
--   about the search for cycles, Plan/Known about the names; Scheduler/Loop/Liveness uses both. A
--   Go map is a list of bindings, searched in the order of the list, where Go takes any order.
-- * Refinement is the controller that tries to discharge the witness of a violation
--   (goplint/cfa_refinement.go, with goplint/cfa_feasibility.go and
--   goplint/cfa_interproc_result.go). Refinement/Check has the feasibility query with the check
--   of its evidence, made of Feasibility, and Refinement/Loop the loop of `Refine`, one function
--   for each stretch between two early exits; it replays witnesses with Witness. The backend, the
--   rerun, the extraction of formulas and the digests are parameters. A result of the loop comes
--   with the cache of discharge hashes.
-- * Oracle is the reference interpreter that the analysis is tested against
--   (internal/protocoloracle/reference.go, with the programs of internal/protocoloracle/ir.go).
--   Oracle/Keys has the texts that stand for states and edges in its maps, Oracle/Effects the
--   effect of a node and the outcomes, Oracle/Worklist the variables of the worklist and the
--   closures that change them, each a function from those variables, Oracle/Interpret its loop,
--   and Oracle/Budget and Oracle/Ends the proofs about its budget.
-- * Policy validates which categories a baseline may hide
--   (goplint/semantic_inconclusive_policy.go, with goplint/categories.go).
-- * Samples runs the models at concrete inputs. Base has the shared helpers.
--
-- How the code corresponds to the model. The unsigned enums and flag sets of the code are natural
-- numbers here, with its constants; the operations on flag sets are bitwise. A string enum is a
-- data type with one constructor for each declared string and one, `other_...`, for every other
-- string. A method that changes its receiver returns the new value. A Go map or a nil pointer
-- that may miss is an Option. Loops are structural recursion over the list they range over, so no
-- fuel is needed, save for the digits of a number in Base/Ints, where the successor of the number
-- is enough fuel, and for the search for cycles in Plan, where one more than the number of
-- bindings is, since a search visits no work unit inside itself. The loop of the refinement
-- recurses on the iterations left, and the worklist of Oracle on one more than its budget, of
-- which each path takes a unit, and the loop of Tabulation/Solve on one more than `maxStates`, of
-- which each queued path edge takes a unit. A deadline is a function that answers its n-th
-- question, and a computation that asks it returns `none` where the code returns early on expiry.
--
-- Not modelled: the syntax trees, types, SSA and control flow graphs of golang.org/x/tools from
-- which the analysis starts, and the code that walks them; rational numbers are those of
-- math/big, a parameter (`Rationals`), and the values of the analysed program, what a text of a
-- constant denotes and the order are a parameter with laws (`ValueOrder`). The solver compares
-- texts, so the laws say which texts are canonical: on those, different texts are different
-- values, and where math/big reads them the order is that of the rationals. What a formula means
-- is stated for canonical texts. Files, processes, digests and the printing of reports are left
-- out.
pub mod Base
pub mod Feasibility
pub mod Oracle
pub mod Plan
pub mod Policy
pub mod Protocol
pub mod Refinement
pub mod Samples
pub mod Scheduler
pub mod Summary
pub mod Tabulation
pub mod Witness
pub mod WorkGroups
