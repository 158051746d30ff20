-- ===== src/Protocol/EdgeFunc/Compose.antt =====
-- The composition of edge functions keeps the verdict of the composed steps.
use goplint.Base.{Bool, ◌==◌, ◌&&◌, ◌≡◌, arith}
use goplint.Protocol.State.{AbstractState, new_required_state, validation_proven, join}
use goplint.Protocol.Decision.{path_status}
use goplint.Protocol.EdgeFunc.{
  EdgeFunc, EdgeFuncTag, apply_tag, apply_edge, tag_of, compose_edge_funcs, join_edge_funcs,
  edge_func_for_state,
}

-- A path that meets no hazard and ends with the obligation met.
abbrev pub discharges : AbstractState → Bool
discharges s = s.hazards == 0 && validation_proven s

abbrev via : EdgeFuncTag → EdgeFuncTag → AbstractState
via f g = apply_tag g (apply_tag f new_required_state)

abbrev summary : EdgeFuncTag → EdgeFuncTag → AbstractState
summary f g = apply_tag (tag_of (edge_func_for_state (via f g)).tag) new_required_state

same_status : (f g : EdgeFuncTag) → path_status (summary f g) ≡ path_status (via f g)
unfolding path_status apply_tag edge_func_for_state tag_of
same_status f g = ground arith

same_discharge : (f g : EdgeFuncTag) → discharges (summary f g) ≡ discharges (via f g)
unfolding apply_tag edge_func_for_state tag_of validation_proven
same_discharge f g = ground arith

-- The single edge function that replaces two steps from the start of an obligation gives the path
-- the status that the two steps give it, and discharges the obligation exactly when they do.
pub compose_edge_funcs_verdict :
    (f g : EdgeFunc)
    → (path_status (apply_edge (compose_edge_funcs f g) new_required_state)
        ≡ path_status (apply_edge g (apply_edge f new_required_state)))
      × (discharges (apply_edge (compose_edge_funcs f g) new_required_state)
          ≡ discharges (apply_edge g (apply_edge f new_required_state)))
unfolding compose_edge_funcs
compose_edge_funcs_verdict f g =
    (same_status (tag_of f.tag) (tag_of g.tag), same_discharge (tag_of f.tag) (tag_of g.tag))

joined : EdgeFuncTag → EdgeFuncTag → AbstractState
unfolding join
joined f g = join (apply_tag f new_required_state) (apply_tag g new_required_state)

join_status :
    (f g : EdgeFuncTag)
    → path_status (apply_tag (tag_of (edge_func_for_state (joined f g)).tag) new_required_state)
      ≡ path_status (joined f g)
unfolding path_status apply_tag edge_func_for_state tag_of joined
join_status f g = ground arith

join_discharge :
    (f g : EdgeFuncTag)
    → discharges (apply_tag (tag_of (edge_func_for_state (joined f g)).tag) new_required_state)
      ≡ discharges (joined f g)
unfolding apply_tag edge_func_for_state tag_of joined validation_proven
join_discharge f g = ground arith

-- The edge function for two branches gives the status of the join of the branches, and discharges
-- the obligation exactly when their join does.
pub join_edge_funcs_verdict :
    (f g : EdgeFunc)
    → let branches = join (apply_edge f new_required_state) (apply_edge g new_required_state) in
      (path_status (apply_edge (join_edge_funcs f g) new_required_state) ≡ path_status branches)
      × (discharges (apply_edge (join_edge_funcs f g) new_required_state) ≡ discharges branches)
unfolding join_edge_funcs joined
join_edge_funcs_verdict f g =
    (join_status (tag_of f.tag) (tag_of g.tag), join_discharge (tag_of f.tag) (tag_of g.tag))
