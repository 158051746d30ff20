-- ===== src/Tabulation/Growth/Done.antt =====
-- What is done for a contribution that a round of the loop in goplint/cfa_ifds_tabulation.go has taken:
-- there is nothing to report there, and every contribution, call and summary that follows from it is
-- there.
use goplint.Base.{true, false, ◌||◌, List, [], ◌∷◌, All, ◌≡◌}
use goplint.Protocol.State.{AbstractState}
use goplint.Feasibility.Control.{Control}
use goplint.Witness.Graph.{NodeId, InterprocEdge}
use goplint.Tabulation.Facts.{Contribution}
use goplint.Tabulation.Edges.{is_return, is_call}
use goplint.Tabulation.Edges.Selected.{outgoing, returning, returning_to}
use goplint.Tabulation.Problem.{
  Problem, unsupported, relevant_uncertainty, terminal_is_unsafe, pruned,
}
use goplint.Tabulation.State.{Solver}
use goplint.Tabulation.Targets.{
  state_after_node, dependency_fact, callee_contribution, next_contribution, summary_fact,
}
use goplint.Tabulation.Growth.{Keeps, Retained, IsClean}
use goplint.Tabulation.Growth.Rules.{Persists}
use goplint.Tabulation.Growth.Calls.{Wide, Registered, Published}

module _ {Ast : Type 0} (p : Problem Ast) where
  -- Nothing is reported at a node.
  pub record IsQuiet (node : NodeId) (state after : AbstractState) : Type 0 where
    pub supported : unsupported p node state ≡ false
    pub safe : terminal_is_unsafe p node after ≡ false
    pub certain : relevant_uncertainty p node after (returning p.graph node) ≡ false

  abbrev pub Reached : Contribution → Solver → Type 0
  Reached x t = Retained t.contributions x

  -- The callee of a call edge is entered, with a dependency for each of its returns.
  pub record Entered (x : Contribution) (e : InterprocEdge) (t : Solver) : Type 0 where
    pub calls :
        All
          (λ r. Registered (dependency_fact p x e r) t)
          (returning_to p.graph e.call_site e.to.func_key)
    pub callee : Reached (callee_contribution p x e) t

  pub record Followed (x : Contribution) (e : InterprocEdge) (t : Solver) : Type 0 where
    pub entered :
        (is_return e.kind || pruned p e (state_after_node p x)) ≡ false
        → is_call e.kind ≡ true
        → Entered x e t
    pub moved :
        (is_return e.kind || pruned p e (state_after_node p x)) ≡ false
        → is_call e.kind ≡ false
        → Reached (next_contribution p x e) t

  -- From a node with return edges the summary is published, from another the edges are followed.
  abbrev pub Advanced : Contribution → List InterprocEdge → Solver → Type 0
  Advanced x [] t = All (λ e. Followed x e t) (outgoing p.graph x.node)
  Advanced x (r ∷ rs) t = Published (summary_fact p x) t

  pub record Done (x : Contribution) (t : Solver) : Type 0 where
    pub quiet : IsQuiet x.node x.state (state_after_node p x)
    pub advanced : Advanced x (returning p.graph x.node) t

pub All-map :
    {A : Type 0} (P Q : A → Type 0) (xs : List A) → ((x : A) → P x → Q x) → All P xs → All Q xs
All-map P Q [] f h = tt
All-map P Q (x ∷ xs) f (h, hs) = (f x h, All-map P Q xs f hs)

module _ {Ast : Type 0} (p : Problem Ast) where
  Entered-kept :
      (x : Contribution) (e : InterprocEdge) (s t : Solver)
      → Keeps s t
      → Entered p x e s
      → Entered p x e t
  Entered-kept x e s t k f = record {
    calls = All-map _ _ _ (λ r. k.more_dependencies (dependency_fact p x e r)) f.calls;
    callee = k.kept (callee_contribution p x e) f.callee;
  }

  pub Followed-kept :
      (x : Contribution) (e : InterprocEdge) (s t : Solver)
      → Keeps s t
      → Followed p x e s
      → Followed p x e t
  Followed-kept x e s t k f = record {
    entered = λ a b. Entered-kept x e s t k (f.entered a b);
    moved = λ a b. k.kept (next_contribution p x e) (f.moved a b);
  }

  Advanced-kept :
      (x : Contribution) (rs : List InterprocEdge) (s t : Solver)
      → Keeps s t
      → Advanced p x rs s
      → Advanced p x rs t
  Advanced-kept x [] s t k f =
      All-map _ _ (outgoing p.graph x.node) (λ e. Followed-kept x e s t k) f
  Advanced-kept x (r ∷ rs) s t k f = k.more_summaries (summary_fact p x) f

  pub Done-kept : (x : Contribution) (s t : Solver) → Keeps s t → Done p x s → Done p x t
  Done-kept x s t k d = record {
    quiet = d.quiet;
    advanced = Advanced-kept x (returning p.graph x.node) s t k d.advanced;
  }

module _ {Ast : Type 0} (p : Problem Ast) (c : Control) where
  keeps : (s t : Solver) → Wide p c s t → IsClean t → Keeps s t
  keeps s t q h = record {
    kept = (q.grows.spreads h).kept;
    more_dependencies = q.grows.more_dependencies;
    more_summaries = q.grows.more_summaries;
  }

  pub Followed-persists :
      (x : Contribution) (e : InterprocEdge) → Persists (Wide p c) (Followed p x e)
  Followed-persists x e s t q h f = Followed-kept p x e s t (keeps s t q h) f

  pub Done-persists : (x : Contribution) → Persists (Wide p c) (Done p x)
  Done-persists x s t q h d = Done-kept p x s t (keeps s t q h) d
