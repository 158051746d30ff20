-- ===== src/Oracle/Keys.antt =====
-- The keys of internal/protocoloracle/reference.go and of `NodeRef` in internal/protocoloracle/ir.go.
use goplint.Base.{
  ℕ, String, str_eq, append, decimal, pos, Bool, true, false, List, [], ◌∷◌, map, Option, none,
  some, if◌then◌else◌, join_texts, concat_texts,
}
use goplint.Oracle.{
  NodeRef, EdgeKind, intra, call, return, other_kind, Edge, ReferenceState, ReferenceEntryFact,
  ReferencePathEdge, ReferenceDependency, ReferenceSummary,
}

abbrev bool_text : Bool → String
bool_text true = "true"
bool_text false = "false"

abbrev number_text : ℕ → String
unfolding decimal
number_text n = decimal (pos n)

-- `%v` of an array.
abbrev array_text : List String → String
array_text xs = append "[" (append (join_texts " " xs) "]")

unfoldable pub node_key : NodeRef → String
unfolding number_text
node_key ref = concat_texts ("p" ∷ number_text ref.procedure ∷ ":n" ∷ number_text ref.node ∷ [])

unfoldable pub state_key : ReferenceState → String
unfolding number_text
state_key s = concat_texts (
    "validated="
    ∷ array_text (map bool_text s.validated)
    ∷ "|violated="
    ∷ bool_text s.violated
    ∷ "|uncertainty="
    ∷ number_text s.uncertainty
    ∷ "|aliases="
    ∷ array_text (map number_text s.aliases)
    ∷ [])

unfoldable pub entry_key : ReferenceEntryFact → String
unfolding node_key state_key
entry_key fact = concat_texts (node_key fact.node ∷ "|" ∷ state_key fact.state ∷ [])

unfoldable pub path_key : ReferencePathEdge → String
unfolding entry_key
path_key edge =
    concat_texts
      (entry_key edge.entry ∷ "|node=" ∷ node_key edge.node ∷ "|" ∷ state_key edge.state ∷ [])

unfoldable pub dependency_key : ReferenceDependency → String
unfolding entry_key number_text
dependency_key d = concat_texts (
    entry_key d.callee_entry
    ∷ "|exit="
    ∷ node_key d.callee_exit
    ∷ "|caller="
    ∷ entry_key d.caller_entry
    ∷ "|site="
    ∷ number_text d.call_site
    ∷ "|return="
    ∷ node_key d.return_node
    ∷ "|state="
    ∷ state_key d.caller_state
    ∷ [])

unfoldable pub summary_key : ReferenceSummary → String
unfolding entry_key
summary_key summary = concat_texts (
    entry_key summary.entry ∷ "|exit=" ∷ node_key summary.exit ∷ "|" ∷ state_key summary.state ∷ [])

abbrev kind_text : EdgeKind → String
kind_text intra = "intra"
kind_text call = "call"
kind_text return = "return"
kind_text (other_kind s) = s

unfoldable pub edge_key : Edge → String
unfolding node_key number_text
edge_key edge = concat_texts (
    node_key edge.from
    ∷ "|"
    ∷ kind_text edge.kind
    ∷ "|"
    ∷ number_text edge.call_site
    ∷ "|"
    ∷ node_key edge.to
    ∷ [])

-- A Go map with texts as keys, the latest binding first.
abbrev pub TextMap {ℓ} : Type ℓ → Type ℓ
TextMap A = List (String × A)

unfoldable pub lookup {ℓ} : {A : Type ℓ} → String → TextMap A → Option A
lookup key [] = none
lookup key ((k, v) ∷ rest) = if str_eq k key then some v else lookup key rest
