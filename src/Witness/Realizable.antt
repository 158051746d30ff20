-- ===== src/Witness/Realizable.antt =====
-- Realizable paths, told without a stack: a realizable path is a sequence of balanced parts between
-- calls that are still open, and a balanced part nests each return in its own call.
use goplint.Base.{List, [], ◌∷◌, ◌++◌, ◌≡◌, ◌≢◌, ◌⊎◌, subst}
use mathlib.Core.List.{append_assoc}
use goplint.Witness.Graph.{WitnessEdge, edge_intra, edge_call, edge_return, edge_call_to_return}
use goplint.Witness.Replay.{CallFrame, frame_of}

-- A step inside one function: within it, or over a call.
abbrev pub IsFlat : WitnessEdge → Type 0
IsFlat e =
    (e.from.func_key ≡ e.to.func_key)
    × ((e.kind ≡ edge_intra) × (e.call_site ≡ "")
        ⊎ (e.kind ≡ edge_call_to_return) × (e.call_site ≢ ""))

abbrev pub IsCall : WitnessEdge → Type 0
IsCall e = (e.kind ≡ edge_call) × (e.call_site ≢ "")

-- A return from the callee to the caller of a call, for the call site of that call.
abbrev pub Returns : CallFrame → WitnessEdge → Type 0
Returns f e =
    (e.kind ≡ edge_return)
    × (e.call_site ≢ "")
    × (f.call_site ≡ e.call_site)
    × (f.callee ≡ e.from.func_key)
    × (f.caller ≡ e.to.func_key)

pub data IsBalanced : List WitnessEdge → Type 0 where
  empty : IsBalanced []
  flat : {e : WitnessEdge} {es : List WitnessEdge} → IsFlat e → IsBalanced es → IsBalanced (e ∷ es)
  nested :
      (c r : WitnessEdge) (body rest : List WitnessEdge)
      → IsCall c
      → IsBalanced body
      → Returns (frame_of c) r
      → IsBalanced rest
      → IsBalanced (c ∷ (body ++ r ∷ rest))

pub data IsRealizable : List WitnessEdge → Type 0 where
  closed : {es : List WitnessEdge} → IsBalanced es → IsRealizable es
  opened :
      (c : WitnessEdge) (before rest : List WitnessEdge)
      → IsBalanced before
      → IsCall c
      → IsRealizable rest
      → IsRealizable (before ++ c ∷ rest)

-- The steps of a walk on a call stack.
pub data Walk : List CallFrame → List WitnessEdge → List CallFrame → Type 0 where
  done : {s : List CallFrame} → Walk s [] s
  stay :
      {s t : List CallFrame} {e : WitnessEdge} {es : List WitnessEdge}
      → IsFlat e
      → Walk s es t
      → Walk s (e ∷ es) t
  enter :
      {s t : List CallFrame} {e : WitnessEdge} {es : List WitnessEdge}
      → IsCall e
      → Walk (frame_of e ∷ s) es t
      → Walk s (e ∷ es) t
  leave :
      {s t : List CallFrame} {f : CallFrame} {e : WitnessEdge} {es : List WitnessEdge}
      → Returns f e
      → Walk s es t
      → Walk (f ∷ s) (e ∷ es) t

-- What a walk on a stack leaves to be explained: a realizable rest, or the return of the top frame.
data Layers : List CallFrame → List WitnessEdge → Type 0 where
  final : {s : List CallFrame} {es : List WitnessEdge} → IsRealizable es → Layers s es
  layer :
      {s : List CallFrame} {f : CallFrame} (r : WitnessEdge) (body rest : List WitnessEdge)
      → IsBalanced body
      → Returns f r
      → Layers s rest
      → Layers (f ∷ s) (body ++ r ∷ rest)

flat-IsRealizable :
    {e : WitnessEdge} {es : List WitnessEdge} → IsFlat e → IsRealizable es → IsRealizable (e ∷ es)
flat-IsRealizable h (closed b) = closed (flat h b)
flat-IsRealizable {e} h (opened c before rest b k p) = opened c (e ∷ before) rest (flat h b) k p

flat-Layers :
    {s : List CallFrame} {e : WitnessEdge} {es : List WitnessEdge}
    → IsFlat e
    → Layers s es
    → Layers s (e ∷ es)
flat-Layers h (final p) = final (flat-IsRealizable h p)
flat-Layers {e} h (layer r body rest b q l) = layer r (e ∷ body) rest (flat h b) q l

-- A call, a balanced body and its return, before what follows.
nested-Layers :
    {s : List CallFrame} (c r : WitnessEdge) (body : List WitnessEdge) {rest : List WitnessEdge}
    → IsCall c
    → IsBalanced body
    → Returns (frame_of c) r
    → Layers s rest
    → Layers s (c ∷ (body ++ r ∷ rest))
nested-Layers c r body k b q (final (closed w)) = final (closed (nested c r body _ k b q w))
nested-Layers {s} c r body k b q (final (opened c' before rest b' k' p)) =
    subst (λ es. Layers s (c ∷ es)) (append_assoc body (r ∷ before) (c' ∷ rest))
      (final (opened c' (c ∷ (body ++ r ∷ before)) rest (nested c r body before k b q b') k' p))
nested-Layers {s} c r body k b q (layer r' body' rest b' q' l) =
    subst (λ es. Layers s (c ∷ es)) (append_assoc body (r ∷ body') (r' ∷ rest))
      (layer r' (c ∷ (body ++ r ∷ body')) rest (nested c r body body' k b q b') q' l)

enter-Layers :
    {s : List CallFrame} {c : WitnessEdge} {es : List WitnessEdge}
    → IsCall c
    → Layers (frame_of c ∷ s) es
    → Layers s (c ∷ es)
enter-Layers {c} {es} k (final p) = final (opened c [] es empty k p)
enter-Layers {c} k (layer r body rest b q l) = nested-Layers c r body k b q l

Walk-Layers : {s t : List CallFrame} {es : List WitnessEdge} → Walk s es t → Layers s es
Walk-Layers done = final (closed empty)
Walk-Layers (stay h w) = flat-Layers h (Walk-Layers w)
Walk-Layers (enter h w) = enter-Layers h (Walk-Layers w)
Walk-Layers (leave {e} {es} h w) = layer e [] es empty h (Walk-Layers w)

Layers-IsRealizable : {es : List WitnessEdge} → Layers [] es → IsRealizable es
Layers-IsRealizable (final p) = p

-- A walk from the empty stack is a realizable path.
pub Walk-IsRealizable :
    {t : List CallFrame} {es : List WitnessEdge} → Walk [] es t → IsRealizable es
Walk-IsRealizable w = Layers-IsRealizable (Walk-Layers w)

Walk-append :
    {s t u : List CallFrame} {xs ys : List WitnessEdge}
    → Walk s xs t
    → Walk t ys u
    → Walk s (xs ++ ys) u
Walk-append done w = w
Walk-append (stay h v) w = stay h (Walk-append v w)
Walk-append (enter h v) w = enter h (Walk-append v w)
Walk-append (leave h v) w = leave h (Walk-append v w)

IsBalanced-Walk : {es : List WitnessEdge} → IsBalanced es → (s : List CallFrame) → Walk s es s
IsBalanced-Walk empty s = done
IsBalanced-Walk (flat h b) s = stay h (IsBalanced-Walk b s)
IsBalanced-Walk (nested c r body rest k b q w) s =
    enter k (Walk-append (IsBalanced-Walk b (frame_of c ∷ s)) (leave q (IsBalanced-Walk w s)))

-- A realizable path is a walk on every stack.
pub IsRealizable-Walk :
    {es : List WitnessEdge}
    → IsRealizable es
    → (s : List CallFrame) → (t : List CallFrame) × Walk s es t
IsRealizable-Walk (closed b) s = (s, IsBalanced-Walk b s)
IsRealizable-Walk (opened c before rest b k p) s =
    let (t, w) = IsRealizable-Walk p (frame_of c ∷ s) in
    (t, Walk-append (IsBalanced-Walk b s) (enter k w))
