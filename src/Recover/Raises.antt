-- ===== src/Recover/Raises.antt =====
-- rc/control/daqinterface.py: where an exception of a recovery comes from.
use artdaq_daqinterface.Prelude.{
  ℕ, String, ◌≡◌, refl, inl, inr, ◌⊎◌, Bool, true, false, ◌&&◌, ◌||◌, List, [], ◌∷◌, occurs, ◌==◌,
  if_cases, and-true,
}
use artdaq_daqinterface.Fhicl.{reversed}
use artdaq_daqinterface.Procinfo.{Procinfo}
use artdaq_daqinterface.Command.{Reply}
use artdaq_daqinterface.Recover.{
  PidSearch, found, not_found, search_raises, is_raised, Query, stop_bucket, bucket_raises,
  priorities_used, stop_priorities, stop_names,
}

-- The search for the number of some process raises an exception.
abbrev pub SomeRaises : (Procinfo → PidSearch) → Type 0
SomeRaises find_pid = (p : Procinfo) × (find_pid p ≡ search_raises)

is_raised-eq : (s : PidSearch) → is_raised s ≡ true → s ≡ search_raises
is_raised-eq found h = cc
is_raised-eq not_found h = cc
is_raised-eq search_raises h = refl

module _ (find_pid : Procinfo → PidSearch) (ask : Procinfo → Query → Reply) where
  bucket_raises-SomeRaises :
      (in_bucket : Procinfo → Bool) (ps : List Procinfo)
      → bucket_raises find_pid ask in_bucket ps ≡ true
      → SomeRaises find_pid
  unfolding bucket_raises
  bucket_raises-SomeRaises in_bucket [] h = cc
  bucket_raises-SomeRaises in_bucket (p ∷ ps) h =
      elim (either (in_bucket p && is_raised (find_pid p)) h) [
        | inl here ↦
            (p, is_raised-eq (find_pid p) (and-true (in_bucket p) (is_raised (find_pid p)) here).1)
        | inr later ↦ bucket_raises-SomeRaises in_bucket ps later
      ]
    where
      either : (a : Bool) {b : Bool} → a || b ≡ true → (a ≡ true) ⊎ (b ≡ true)
      either true h = inl refl
      either false h = inr h

  stop_priorities-SomeRaises :
      (name : String) (ns : List ℕ) (ps : List Procinfo)
      → (stop_priorities find_pid ask name ns ps).1 ≡ true
      → SomeRaises find_pid
  unfolding stop_priorities
  stop_priorities-SomeRaises name [] ps h = cc
  stop_priorities-SomeRaises name (n ∷ ns) ps h =
      let in_bucket : Procinfo → Bool = λ p. occurs name p.name && (n == p.priority) in
      if_cases (λ (x : List Procinfo × Bool). x.1 ≡ true → SomeRaises find_pid)
        (bucket_raises find_pid ask in_bucket ps)
        (λ raised e. bucket_raises-SomeRaises in_bucket ps raised)
        (λ calm e. stop_priorities-SomeRaises name ns (stop_bucket find_pid ask in_bucket ps) e) h

  pub stop_names-SomeRaises :
      (names : List String) (ps : List Procinfo)
      → (stop_names find_pid ask names ps).1 ≡ true
      → SomeRaises find_pid
  unfolding stop_names
  stop_names-SomeRaises [] ps h = cc
  stop_names-SomeRaises (name ∷ names) ps h =
      let priorities = reversed (priorities_used find_pid ask name ps) in
      let stopped = stop_priorities find_pid ask name priorities ps in
      if_cases (λ (x : List Procinfo × Bool). x.1 ≡ true → SomeRaises find_pid) stopped.1
        (λ raised e. stop_priorities-SomeRaises name priorities ps raised)
        (λ calm e. stop_names-SomeRaises names stopped.0 e) h
