-- ===== src/Bookkeeping/Graph.antt =====
-- rc/control/bookkeeping.py, `find_cycle_in_subsystem_graph`, and the class `Subsystem` of
-- rc/control/daqinterface.py.
pub mod Acyclic
pub mod Grounded
pub mod Traced
pub mod Loops
pub mod Cycle
pub mod Depth
pub mod Verdict
use artdaq_daqinterface.Prelude.{
  ℕ, zero, suc, String, Bool, true, false, Option, none, some, List, [], ◌∷◌, Dict, isin, discard,
  has, lookup, keys, if◌then◌else◌, length,
}
use artdaq_daqinterface.Bookkeeping.Errors.{Fault, key_error, out_of_fuel}

-- The class `Subsystem`, without its constructor's defaults.
pub record Subsystem : Type 0 where
  pub sources : List String
  pub destination : Option String
  pub fragment_mode : Bool

-- The two sets of the search.
pub record Marks : Type 0 where
  pub visited : List String
  pub in_stack : List String

-- `clear` stands for the return value `None`, with the sets as they then are.
pub data Search : Type 0 where
  clear : Marks → Search
  found : List String → Search
  failed : Fault → Search

-- `cycle_path = dfs(ss_source)` and the test of its result.
unfoldable pub extend : String → (Marks → Search) → Search → Search
extend ss rest (clear m) = rest m
extend ss rest (found path) = found (ss ∷ path)
extend ss rest (failed e) = failed e

-- The loop over `self.subsystems[ss].sources`; `visit` is the recursive call.
unfoldable pub scan :
    (String → Marks → Search) → Dict Subsystem → String → List String → Marks → Search
unfolding extend
scan visit g ss [] m = clear m
scan visit g ss (t ∷ ts) m =
    let rest = λ (m' : Marks). scan visit g ss ts m' in
    if has t g
    then (if isin t m.visited
        then (if isin t m.in_stack then found (ss ∷ t ∷ []) else rest m)
        else extend ss rest (visit t m))
    else rest m

-- `visited.add(ss)`, `in_stack.add(ss)`
unfoldable pub enter : String → Marks → Marks
enter ss m = record { visited = ss ∷ m.visited; in_stack = ss ∷ m.in_stack }

-- `in_stack.discard(ss)`, `return None`
unfoldable pub leave : String → Search → Search
unfolding discard
leave ss (clear m) = clear (record m { in_stack = discard ss m.in_stack })
leave ss (found path) = found path
leave ss (failed e) = failed e

unfoldable pub scan_sources :
    (String → Marks → Search) → Dict Subsystem → String → Option Subsystem → Marks → Search
scan_sources visit g ss none m = failed (key_error ss)
scan_sources visit g ss (some sub) m = scan visit g ss sub.sources m

unfoldable pub dfs : ℕ → Dict Subsystem → String → Marks → Search
unfolding leave scan_sources enter
dfs zero g ss m = failed out_of_fuel
dfs (suc fuel) g ss m = leave ss (scan_sources (dfs fuel g) g ss (lookup ss g) (enter ss m))

-- The test of the result of `dfs(ss)` in the loop over the subsystems.
unfoldable pub or_next : (Marks → Search) → Search → Search
or_next rest (clear m) = rest m
or_next rest (found path) = found path
or_next rest (failed e) = failed e

-- The loop over the subsystems.
unfoldable pub search_roots : ℕ → Dict Subsystem → List String → Marks → Search
unfolding or_next
search_roots fuel g [] m = clear m
search_roots fuel g (ss ∷ rest) m =
    let next = λ (m' : Marks). search_roots fuel g rest m' in
    if isin ss m.visited then next m else or_next next (dfs fuel g ss m)

abbrev pub no_marks : Marks
no_marks = record { visited = []; in_stack = [] }

-- One level of recursion for each subsystem is enough, and one for the last call.
abbrev pub depth : Dict Subsystem → ℕ
depth g = suc (length g)

unfoldable pub find_cycle_in_subsystem_graph : Dict Subsystem → Search
unfolding search_roots
find_cycle_in_subsystem_graph g = search_roots (depth g) g (keys g) no_marks
