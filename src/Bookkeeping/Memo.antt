-- ===== src/Bookkeeping/Memo.antt =====
-- rc/control/bookkeeping.py: the shape that `calculate_expected_fragments_per_event`,
-- `calculate_max_event_size` and `calculate_subsystem_fragment_ids` share. Each looks in its cache,
-- starts from a value of the subsystem itself, goes through the sources, adds to the value or not,
-- and keeps the result in its cache.
pub mod Meaning
pub mod Total
use artdaq_daqinterface.Prelude.{
  ℕ, zero, suc, String, ◌≡◌, refl, Option, none, some, List, [], ◌∷◌, Dict, lookup, insert,
}
use artdaq_daqinterface.Bookkeeping.Errors.{out_of_fuel, Result, ok, err, ◌>>=◌, at_key}
use artdaq_daqinterface.Bookkeeping.Graph.{Subsystem}

-- What the loop does with one source: nothing, an addition of a known value, or of a recursive call's.
pub data Plan (A : Type 0) : Type 0 where
  skip : Plan A
  known_value : A → Plan A
  recurse : Plan A

pub record Calculation (A : Type 0) : Type 0 where
  pub start : String → Result A
  pub plan : (ss source : String) → Result (Plan A)
  pub join : A → A → A
  pub finish : A → A

module _ {A : Type 0} (c : Calculation A) where
  -- One turn of the loop over the sources of `ss`; `call` is the recursive call.
  unfoldable pub take_step :
      (String → Dict A → Result (A × Dict A)) → String → Plan A → A → Dict A → Result (A × Dict A)
  take_step call source skip total cache = ok (total, cache)
  take_step call source (known_value a) total cache = ok (c.join total a, cache)
  take_step call source recurse total cache = call source cache >>= λ p. ok (c.join total p.0, p.1)

  unfoldable pub add_sources :
      (String → Dict A → Result (A × Dict A))
      → String
      → List String
      → A
      → Dict A
      → Result (A × Dict A)
  unfolding take_step
  add_sources call ss [] total cache = ok (total, cache)
  add_sources call ss (t ∷ ts) total cache =
      c.plan ss t >>= λ p. take_step call t p total cache >>= λ r. add_sources call ss ts r.0 r.1

  -- `_cache[ss] = v; return v`
  unfoldable pub store : String → A × Dict A → Result (A × Dict A)
  unfolding insert
  store ss r = let v = c.finish r.0 in ok (v, insert ss v r.1)

  unfoldable pub compute :
      (String → Dict A → Result (A × Dict A))
      → Dict Subsystem
      → String
      → Dict A
      → Result (A × Dict A)
  unfolding add_sources store at_key
  compute call g ss cache = c.start ss >>= λ a.
      at_key g ss >>= λ sub. add_sources call ss sub.sources a cache >>= λ r. store ss r

  -- `if ss in _cache: return _cache[ss]`
  unfoldable pub unless_cached : Option A → Dict A → Result (A × Dict A) → Result (A × Dict A)
  unless_cached none cache otherwise = otherwise
  unless_cached (some v) cache otherwise = ok (v, cache)

  unfoldable pub calculate : ℕ → Dict Subsystem → String → Dict A → Result (A × Dict A)
  unfolding compute unless_cached lookup
  calculate zero g ss cache = err out_of_fuel
  calculate (suc fuel) g ss cache =
      unless_cached (lookup ss cache) cache (compute (calculate fuel g) g ss cache)
