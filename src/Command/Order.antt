-- ===== src/Command/Order.antt =====
-- rc/control/daqinterface.py, `do_command`: the order of the subsystems.
use artdaq_daqinterface.Prelude.{
  ℕ, zero, suc, String, ◌=ₛ◌, Bool, true, false, not, ◌&&◌, Option, none, some, List, [], ◌∷◌, ◌++◌,
  Dict, isin, length, if◌then◌else◌,
}
use artdaq_daqinterface.Bookkeeping.Graph.{Subsystem}

-- `list.remove`, where the list has the item; else the list.
unfoldable pub remove_once : String → List String → List String
remove_once x [] = []
remove_once x (y ∷ ys) = let rest = remove_once x ys in if y =ₛ x then ys else y ∷ rest

-- `sources_copy` after the loop over the subsystems that are ordered.
unfoldable pub sources_copy : List String → List String → List String
unfolding remove_once
sources_copy [] sources = sources
sources_copy (ordered_ss ∷ rest) sources = sources_copy rest (remove_once ordered_ss sources)

abbrev pub is_empty : List String → Bool
is_empty [] = true
is_empty (x ∷ xs) = false

-- The test of the inner loop.
unfoldable pub is_next : List String → String → List String → Bool
unfolding sources_copy isin
is_next ordered ss sources = is_empty (sources_copy ordered sources) && not (isin ss ordered)

-- The inner loop, which appends the first subsystem that passes.
unfoldable pub next_subsystem : List String → Dict Subsystem → Option String
unfolding is_next
next_subsystem ordered [] = none
next_subsystem ordered ((ss, sub) ∷ rest) =
    let later = next_subsystem ordered rest in
    if is_next ordered ss sub.sources then some ss else later

-- The outer loop with `rounds` subsystems left to order. Where a round appends nothing the next ones
-- do not either: none stands for a loop that does not end.
unfoldable pub order_rounds : ℕ → Dict Subsystem → List String → Option (List String)
unfolding next_subsystem
order_rounds zero g ordered = some ordered
order_rounds (suc rounds) g ordered = elim (next_subsystem ordered g) [
  | none ↦ none
  | some ss ↦ order_rounds rounds g (ordered ++ ss ∷ [])
]

unfoldable pub subsystems_in_order : Dict Subsystem → Option (List String)
unfolding order_rounds
subsystems_in_order g = order_rounds (length g) g []
