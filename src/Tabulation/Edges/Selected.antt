-- ===== src/Tabulation/Edges/Selected.antt =====
-- Which edges the scans of goplint/cfa_ifds_tabulation.go and goplint/cfa_interproc_graph.go find in
-- time, by a reference definition that has no control.
use goplint.Base.{
  String, str_less, sort_by, insert_by, Bool, true, if_branches, ℕ, suc, some, List, [], ◌∷◌, Memᴰ,
  ◌≡◌, sym, ap, ◌∙◌, ◌⊎◌, inl, inr, arith, if◌then◌else◌,
}
use goplint.Feasibility.Control.{Control, checkpoint-eq_some, >>=-eq_some, ◌>>=◌, pure}
use goplint.Witness.Graph.{NodeId, InterprocEdge, Supergraph}
use goplint.Tabulation.Edges.{
  leaves, returns, returns_to, outgoing_order, return_order, edges_with, unless_expired,
  outgoing_edges, outgoing_with_control, return_edges_from, return_edges_for_call,
}

unfoldable pub selected : (InterprocEdge → Bool) → List InterprocEdge → List InterprocEdge
selected keep [] = []
selected keep (e ∷ es) = if keep e then e ∷ selected keep es else selected keep es

-- `outgoing`
unfoldable pub outgoing : Supergraph → NodeId → List InterprocEdge
outgoing graph node = sort_by outgoing_order (selected (leaves node) graph.edges)

unfoldable pub returning : Supergraph → NodeId → List InterprocEdge
unfolding outgoing
returning graph node = selected returns (outgoing graph node)

unfoldable pub returning_to : Supergraph → String → String → List InterprocEdge
returning_to graph call_site callee =
    sort_by return_order (selected (returns_to call_site callee) graph.edges)

module _ {ℓ} {A : Type ℓ} (key : A → String) where
  in_front : (x y : A) (xs : List A) → (x ≡ y) ⊎ Memᴰ x xs → Memᴰ x (y ∷ xs)
  in_front x y xs (inl e) = Memᴰ.head e
  in_front x y xs (inr m) = Memᴰ.tail m

  behind :
      (x y z : A) (zs ws : List A)
      → (x ≡ y) ⊎ Memᴰ x (z ∷ zs)
      → ((x ≡ y) ⊎ Memᴰ x zs → Memᴰ x ws)
      → Memᴰ x (z ∷ ws)
  behind x y z zs ws (inl e) f = Memᴰ.tail (f (inl e))
  behind x y z zs ws (inr (Memᴰ.head e)) f = Memᴰ.head e
  behind x y z zs ws (inr (Memᴰ.tail m)) f = Memᴰ.tail (f (inr m))

  mem-insert : (x y : A) (xs : List A) → (x ≡ y) ⊎ Memᴰ x xs → Memᴰ x (insert_by key y xs)
  mem-insert x y [] h = in_front x y [] h
  mem-insert x y (z ∷ zs) h =
      if_branches (Memᴰ x) (str_less (key y) (key z)) _ _ (λ e. in_front x y (z ∷ zs) h)
        (λ e. behind x y z zs (insert_by key y zs) h (mem-insert x y zs))

  pub mem-sort_by : (x : A) (xs : List A) → Memᴰ x xs → Memᴰ x (sort_by key xs)
  unfolding sort_by
  mem-sort_by x [] m = elim m [ ]
  mem-sort_by x (y ∷ ys) (Memᴰ.head e) = mem-insert x y (sort_by key ys) (inl e)
  mem-sort_by x (y ∷ ys) (Memᴰ.tail m) = mem-insert x y (sort_by key ys) (inr (mem-sort_by x ys m))

pub mem-selected :
    (keep : InterprocEdge → Bool) (e : InterprocEdge) (es : List InterprocEdge)
    → Memᴰ e es
    → keep e ≡ true
    → Memᴰ e (selected keep es)
unfolding selected
mem-selected keep e [] m k = elim m [ ]
mem-selected keep e (x ∷ xs) (Memᴰ.head p) k = rw (sym (ap keep p) ∙ k) (Memᴰ.head p)
mem-selected keep e (x ∷ xs) (Memᴰ.tail m) k =
    if_branches (Memᴰ e) (keep x) _ _ (λ p. Memᴰ.tail (mem-selected keep e xs m k))
      (λ p. mem-selected keep e xs m k)

module _ (c : Control) where
  edges_with-eq_selected :
      (keep : InterprocEdge → Bool) (es : List InterprocEdge) (n : ℕ) (out : List InterprocEdge)
      → (edges_with c keep es n).0 ≡ some out
      → out ≡ selected keep es
  unfolding edges_with selected
  edges_with-eq_selected keep [] n out h = cc
  edges_with-eq_selected keep (e ∷ es) n out h =
      let joined = λ (rest : List InterprocEdge).
        pure {A = List InterprocEdge} (if keep e then e ∷ rest else rest) in
      let (rest, got, last) =
        >>=-eq_some (edges_with c keep es) joined (suc n) out
          (checkpoint-eq_some c (edges_with c keep es >>= joined) n out h) in
      ground (arith, last, edges_with-eq_selected keep es (suc n) rest got)

  unless_expired-eq_some :
      (xs out : List InterprocEdge) (n : ℕ) → (unless_expired c xs n).0 ≡ some out → out ≡ xs
  unless_expired-eq_some xs out n h = ground (arith, checkpoint-eq_some c (pure xs) n out h)

  outgoing_edges-eq_some :
      (from : NodeId) (es out : List InterprocEdge) (n : ℕ)
      → (outgoing_edges c from es n).0 ≡ some out
      → out ≡ sort_by outgoing_order (selected (leaves from) es)
  unfolding outgoing_edges
  outgoing_edges-eq_some from [] out n h = unfold selected sort_by in cc
  outgoing_edges-eq_some from (e ∷ es) out n h =
      let (found, got, last) =
        >>=-eq_some (edges_with c (leaves from) (e ∷ es))
          (λ out. unless_expired c (sort_by outgoing_order out)) n out h in
      unless_expired-eq_some (sort_by outgoing_order found) out _ last
      ∙ ap (sort_by outgoing_order) (edges_with-eq_selected (leaves from) (e ∷ es) n found got)

  pub outgoing_with_control-eq_some :
      (graph : Supergraph) (node : NodeId) (n : ℕ) (out : List InterprocEdge)
      → (outgoing_with_control c graph node n).0 ≡ some out
      → out ≡ outgoing graph node
  unfolding outgoing_with_control outgoing
  outgoing_with_control-eq_some graph node n out h =
      outgoing_edges-eq_some node graph.edges out (suc n)
        (checkpoint-eq_some c (outgoing_edges c node graph.edges) n out h)

  pub return_edges_from-eq_some :
      (graph : Supergraph) (node : NodeId) (n : ℕ) (out : List InterprocEdge)
      → (return_edges_from c graph node n).0 ≡ some out
      → out ≡ returning graph node
  unfolding return_edges_from returning
  return_edges_from-eq_some graph node n out h =
      let (all, got, h') = >>=-eq_some (outgoing_with_control c graph node) _ n out h in
      let (found, got', last) =
        >>=-eq_some (edges_with c returns all) (unless_expired c) _ out h' in
      unless_expired-eq_some found out _ last
      ∙ edges_with-eq_selected returns all _ found got'
      ∙ ap (selected returns) (outgoing_with_control-eq_some graph node n all got)

  pub return_edges_for_call-eq_some :
      (graph : Supergraph) (call_site callee : String) (n : ℕ) (out : List InterprocEdge)
      → (return_edges_for_call c graph call_site callee n).0 ≡ some out
      → out ≡ returning_to graph call_site callee
  unfolding return_edges_for_call returning_to
  return_edges_for_call-eq_some graph call_site callee n out h =
      let (found, got, last) =
        >>=-eq_some (edges_with c (returns_to call_site callee) graph.edges) _ n out h in
      unless_expired-eq_some (sort_by return_order found) out _ last
      ∙ ap (sort_by return_order)
          (edges_with-eq_selected (returns_to call_site callee) graph.edges n found got)
