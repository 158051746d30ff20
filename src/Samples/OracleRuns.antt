-- ===== src/Samples/OracleRuns.antt =====
-- internal/protocoloracle/reference.go at a program of two nodes, which consumes a value before it
-- validates it.
use goplint.Base.{ℕ, ◌+◌, ◌≤◌, false, true, some, [], ◌∷◌, ◌≡◌, refl}
use goplint.Oracle.{
  Node, NodeRef, intra, Program, Operation, consume, validate, result_nil, alias_none, unknown_none,
  constraint_none, needs_validation, IdentityResult, violation, outcome_none, inconclusive,
}
use goplint.Oracle.Worklist.{Interpretation}
use goplint.Oracle.Interpret.{interpret_loop, start, interpret_identity}
use goplint.Oracle.Ends.{interpret_identity_ends}

abbrev at : ℕ → NodeRef
at n = record { procedure = 0; node = n }

abbrev node : ℕ → Operation → Node
node n operation = record {
  ref = at n;
  operation = operation;
  identity = 0;
  condition = result_nil;
  alias_action = alias_none;
  alias_source = 0;
  unknown_effect = unknown_none;
  constraint = constraint_none;
  terminal = false;
}

abbrev program : Operation → Operation → Program
program first last = record {
  entry = at 0;
  nodes = node 0 first ∷ record (node 1 last) { terminal = true } ∷ [];
  edges = record { from = at 0; to = at 1; kind = intra; call_site = 0 } ∷ [];
  identities = 0 ∷ [];
  initial_facts = needs_validation ∷ [];
}

consumed_first :
    interpret_identity 5 (program consume validate) 0
    ≡ some (record {
      outcome = violation;
      uncertainty = [];
      witness = "p0:n0|intra|0|p0:n1" ∷ [];
      refined_witnesses = [];
      summaries = 0;
      summary_reuses = 0;
    })
unfolding interpret_identity
consumed_first = refl

-- With one unit of work only the entry is looked at.
out_of_budget :
    interpret_identity 1 (program validate consume) 0
    ≡ some (record {
      outcome = inconclusive;
      uncertainty = "state-budget" ∷ [];
      witness = [];
      refined_witnesses = [];
      summaries = 0;
      summary_reuses = 0;
    })
unfolding interpret_identity
out_of_budget = refl

interpret_identity_ends_example :
    (r : IdentityResult) × (interpret_identity 5 (program validate consume) 0 ≡ some r)
    × (r.summaries ≤ 5)
    × (s : Interpretation) × (interpret_loop 5
          (program validate consume)
          0
          (5 + 1)
          (start 5 (program validate consume))
        ≡ some s)
    × (r.outcome ≡ outcome_none → s.queue ≡ [])
interpret_identity_ends_example = interpret_identity_ends 5 (program validate consume) 0
