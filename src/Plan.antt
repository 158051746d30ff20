-- ===== src/Plan.antt =====
-- The dependencies of an execution plan: internal/soundnessgate/plan_model.go, with the identifiers
-- of internal/soundnessgate/model.go.
pub mod Visiting
pub mod Cycles
pub mod Known
use goplint.Base.{
  ℕ, zero, suc, String, str_eq, str_less, contains, Bool, true, false, not, ◌&&◌, ◌||◌, ◌==◌, leb,
  List, [], ◌∷◌, ◌++◌, reverse, Option, none, some, length, map, if◌then◌else◌,
}
use goplint.Base.Text.{codes}

pub record PlanDependency : Type 0 where
  pub work_unit_id : String
  pub requires : List String

-- The errors, in the order of the code. `out_of_fuel` is none of them.
pub data PlanError : Type 0 where
  dependency_count unknown_work_unit duplicate_binding unordered_bindings empty_identifier
        padded_identifier duplicate_identifier unordered_identifiers self_dependency
        unknown_dependency dependency_cycle out_of_fuel :
      PlanError

-- `unicode.IsSpace`
abbrev pub is_space : ℕ → Bool
is_space c =
    leb 9 c && leb c 13
    || c == 32
    || c == 133
    || c == 160
    || c == 5760
    || leb 8192 c && leb c 8202
    || c == 8232
    || c == 8233
    || c == 8239
    || c == 8287
    || c == 12288

abbrev pub trim_left : List ℕ → List ℕ
trim_left [] = []
trim_left (c ∷ cs) = let rest = trim_left cs in if is_space c then rest else c ∷ cs

-- `strings.TrimSpace`, on code points.
abbrev pub trim_space : List ℕ → List ℕ
trim_space cs = reverse (trim_left (reverse (trim_left cs)))

abbrev same_codes : List ℕ → List ℕ → Bool
same_codes [] [] = true
same_codes (x ∷ xs) (y ∷ ys) = (x == y) && same_codes xs ys
same_codes _ _ = false

-- `none` is the nil error.
unfoldable pub validate_identifier : String → Option PlanError
validate_identifier value =
    if length (trim_space (codes value)) == 0
    then some empty_identifier
    else if not (same_codes (codes value) (trim_space (codes value)))
    then some padded_identifier
    else none

unfoldable pub identifiers_loop : List String → List String → Option PlanError
unfolding validate_identifier
identifiers_loop seen [] = none
identifiers_loop seen (value ∷ values) = elim (validate_identifier value) [
  | some e ↦ some e
  | none ↦ elim (contains seen value) [
    | true ↦ some duplicate_identifier
    | false ↦ identifiers_loop (value ∷ seen) values
  ]
]

-- `slices.IsSorted`
unfoldable pub is_sorted : List String → Bool
is_sorted [] = true
is_sorted (x ∷ []) = true
is_sorted (x ∷ y ∷ xs) = not (str_less y x) && is_sorted (y ∷ xs)

unfoldable pub validate_canonical_identifiers : List String → Option PlanError
unfolding identifiers_loop is_sorted
validate_canonical_identifiers values = elim (identifiers_loop [] values) [
  | some e ↦ some e
  | none ↦ if not (is_sorted values) then some unordered_identifiers else none
]

-- `dependencies[id]` of a Go map: nil at a missing key.
unfoldable pub requires_of : List PlanDependency → String → List String
requires_of [] id = []
requires_of (d ∷ ds) id = if str_eq d.work_unit_id id then d.requires else requires_of ds id

unfoldable pub remove : String → List String → List String
remove x [] = []
remove x (y ∷ ys) = if str_eq y x then remove x ys else y ∷ remove x ys

-- The two maps of the search.
pub record Search : Type 0 where
  pub visiting : List String
  pub visited : List String

pub data Outcome : Type 0 where
  cycle spent : Outcome
  reached : Search → Outcome

-- The loop over the dependencies of a work unit.
unfoldable pub visit_each : (String → Search → Outcome) → List String → Search → Outcome
visit_each visit [] s = reached s
visit_each visit (id ∷ ids) s = elim (visit id s) [
  | cycle ↦ cycle
  | spent ↦ spent
  | reached t ↦ visit_each visit ids t
]

abbrev pub leave : String → Outcome → Outcome
leave id cycle = cycle
leave id spent = spent
leave id (reached s) =
    reached (record { visiting = remove id s.visiting; visited = id ∷ s.visited })

module _ (dependencies : List PlanDependency) where
  -- `visit`, on fuel.
  unfoldable pub visit : ℕ → String → Search → Outcome
  unfolding visit_each remove
  visit zero id s = spent
  visit (suc fuel) id s = elim (contains s.visiting id) [
    | true ↦ cycle
    | false ↦ elim (contains s.visited id) [
      | true ↦ reached s
      | false ↦ leave id (
          visit_each (visit fuel) (requires_of dependencies id)
            (record s { visiting = id ∷ s.visiting }))
    ]
  ]

  abbrev pub bound_ids : List String
  bound_ids = map (λ (d : PlanDependency). d.work_unit_id) dependencies

  -- A search visits no work unit inside itself, so this fuel is enough.
  unfoldable pub search : Outcome
  unfolding visit
  search =
      visit_each (visit (suc (length dependencies))) bound_ids
        (record { visiting = []; visited = [] })

  unfoldable pub validate_dependency_cycles : Option PlanError
  unfolding search
  validate_dependency_cycles = elim search [
    | cycle ↦ some dependency_cycle
    | spent ↦ some out_of_fuel
    | reached s ↦ none
  ]

unfoldable pub requires_loop : List String → String → List String → Option PlanError
requires_loop commands id [] = none
requires_loop commands id (required ∷ rest) = elim (str_eq required id) [
  | true ↦ some self_dependency
  | false ↦ elim (contains commands required) [
    | false ↦ some unknown_dependency
    | true ↦ requires_loop commands id rest
  ]
]

-- The loop over the bindings; `seen` has the keys of `byID`.
unfoldable pub dependencies_loop :
    List String → List String → String → List PlanDependency → Option PlanError
unfolding validate_canonical_identifiers requires_loop
dependencies_loop commands seen previous [] = none
dependencies_loop commands seen previous (d ∷ ds) = elim (contains commands d.work_unit_id) [
  | false ↦ some unknown_work_unit
  | true ↦ elim (contains seen d.work_unit_id) [
    | true ↦ some duplicate_binding
    | false ↦ elim (not (str_eq previous "") && str_less d.work_unit_id previous) [
      | true ↦ some unordered_bindings
      | false ↦ elim (validate_canonical_identifiers d.requires) [
        | some e ↦ some e
        | none ↦ elim (requires_loop commands d.work_unit_id d.requires) [
          | some e ↦ some e
          | none ↦ dependencies_loop commands (d.work_unit_id ∷ seen) d.work_unit_id ds
        ]
      ]
    ]
  ]
]

-- `commands` has the keys of the map of commands.
unfoldable pub validate_plan_dependencies : List PlanDependency → List String → Option PlanError
unfolding dependencies_loop validate_dependency_cycles
validate_plan_dependencies dependencies commands =
    if not (length dependencies == length commands)
    then some dependency_count
    else elim (dependencies_loop commands [] "" dependencies) [
      | some e ↦ some e
      | none ↦ validate_dependency_cycles dependencies
    ]
