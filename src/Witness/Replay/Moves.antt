-- ===== src/Witness/Replay/Moves.antt =====
-- The `switch` of the replay loop is one step of a walk on the call stack.
use goplint.Base.{
  String, str_eq, eq_iff, true, false, List, [], ◌∷◌, ◌≡◌, ◌≢◌, ◌⊎◌, inl, inr, refl, arith,
  int_eq-≡, int_eq_refl,
}
use goplint.Protocol.State.{AbstractState}
use goplint.Witness.Graph.{
  WitnessEdge, NodeId, InterprocEdgeKind, edge_intra, edge_call, edge_return, edge_call_to_return,
  other_edge, node_eq, state_eq,
}
use goplint.Witness.Replay.{CallFrame, frame_of, moved, move_stack, pop_frame}
use goplint.Witness.Realizable.{IsFlat, IsCall, Returns}

-- The three ways in which an edge turns a stack into another.
abbrev pub Moves : List CallFrame → WitnessEdge → List CallFrame → Type 0
Moves s e t =
    (IsFlat e × (s ≡ t))
    ⊎ (IsCall e × (frame_of e ∷ s ≡ t))
    ⊎ ((f : CallFrame) × Returns f e × (s ≡ f ∷ t))

moved_eq : {s t : List CallFrame} → moved s ≡ moved t → s ≡ t
moved_eq h = cc

text_eq : (a b : String) → str_eq a b ≡ true → a ≡ b
text_eq a b = (eq_iff a b).0

text_neq : (a b : String) → str_eq a b ≡ false → a ≢ b
text_neq a b h e = ground (arith, eq_iff a b)

move_kind :
    (k : InterprocEdgeKind) (e : WitnessEdge) (s t : List CallFrame)
    → e.kind ≡ k
    → move_stack k e s ≡ moved t
    → Moves s e t
unfolding move_stack pop_frame
move_kind edge_intra e s t q h =
    inl (ground (arith, q, text_eq e.from.func_key e.to.func_key, text_eq e.call_site ""))
move_kind edge_call_to_return e s t q h =
    inl (ground (arith, q, text_eq e.from.func_key e.to.func_key, text_neq e.call_site ""))
move_kind edge_call e s t q h = inr (inl (ground (arith, q, text_neq e.call_site "")))
move_kind edge_return e [] t q h = ground arith
move_kind edge_return e (f ∷ s) t q h =
    let back : Returns f e = ground (
      arith,
      q,
      text_neq e.call_site "",
      text_eq f.call_site e.call_site,
      text_eq f.callee e.from.func_key,
      text_eq f.caller e.to.func_key,
    ) in
    inr (inr (f, back, ground arith))
move_kind (other_edge x) e s t q h = cc

pub move_stack-Moves :
    (e : WitnessEdge) (s t : List CallFrame) → move_stack e.kind e s ≡ moved t → Moves s e t
move_stack-Moves e s t h = move_kind e.kind e s t refl h

pub IsFlat-move_stack :
    (e : WitnessEdge) (s : List CallFrame) → IsFlat e → move_stack e.kind e s ≡ moved s
unfolding move_stack
IsFlat-move_stack e s (same, inl (k, site)) =
    rw k (ground (arith, eq_iff e.from.func_key e.to.func_key, eq_iff e.call_site ""))
IsFlat-move_stack e s (same, inr (k, site)) =
    rw k (ground (arith, eq_iff e.from.func_key e.to.func_key, eq_iff e.call_site ""))

pub IsCall-move_stack :
    (e : WitnessEdge) (s : List CallFrame)
    → IsCall e
    → move_stack e.kind e s ≡ moved (frame_of e ∷ s)
unfolding move_stack
IsCall-move_stack e s (k, site) = rw k (ground (arith, eq_iff e.call_site ""))

pub Returns-move_stack :
    (f : CallFrame) (e : WitnessEdge) (s : List CallFrame)
    → Returns f e
    → move_stack e.kind e (f ∷ s) ≡ moved s
unfolding move_stack pop_frame
Returns-move_stack f e s (k, site, p, q, r) = rw k (
    ground (
      arith,
      eq_iff e.call_site "",
      eq_iff f.call_site e.call_site,
      eq_iff f.callee e.from.func_key,
      eq_iff f.caller e.to.func_key,
    ))

-- The two equality tests on records.
pub node_eq-≡ : (a b : NodeId) → node_eq a b ≡ true → a ≡ b
unfolding node_eq
node_eq-≡ a b h = ground (
  arith,
  text_eq a.func_key b.func_key,
  text_eq a.kind b.kind,
  int_eq-≡ a.block_index b.block_index,
  int_eq-≡ a.node_index b.node_index,
  int_eq-≡ a.call_ordinal b.call_ordinal,
)

pub node_eq_refl : (a : NodeId) → node_eq a a ≡ true
unfolding node_eq
node_eq_refl a = ground (
  arith,
  eq_iff a.func_key a.func_key,
  eq_iff a.kind a.kind,
  int_eq_refl a.block_index,
  int_eq_refl a.node_index,
  int_eq_refl a.call_ordinal,
)

pub state_eq-≡ : (a b : AbstractState) → state_eq a b ≡ true → a ≡ b
unfolding state_eq
state_eq-≡ a b h = ground arith

pub state_eq_refl : (a : AbstractState) → state_eq a a ≡ true
unfolding state_eq
state_eq_refl a = ground arith
