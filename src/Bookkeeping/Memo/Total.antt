-- ===== src/Bookkeeping/Memo/Total.antt =====
-- rc/control/bookkeeping.py: the three cached calculations end where the sources have no cycle.
use mathlib.Core.WellFounded.{Acc}
use artdaq_daqinterface.Prelude.{
  ℕ, zero, suc, ◌+◌, ◌≤◌, String, ◌=ₛ◌ as ◌==◌, ◌≡◌, refl, inl, inr, true, Option, none, some, List,
  [], ◌∷◌, Dict, isin, has, lookup, insert, arith, eq_iff, eq_refl, Bool-cases, isin_later,
  has-lookup, lookup-has,
}
use artdaq_daqinterface.Bookkeeping.Errors.{Result, ok, lookup-at_key}
use artdaq_daqinterface.Bookkeeping.Graph.{Subsystem}
use artdaq_daqinterface.Bookkeeping.Graph.Acyclic.{Grounded}
use artdaq_daqinterface.Bookkeeping.Memo.{
  Plan, skip, known_value, recurse, Calculation, take_step, add_sources, store, compute,
  unless_cached, calculate,
}

-- Every source is itself a subsystem.
pub record IsClosed (g : Dict Subsystem) : Type 0 where
  pub closed :
      (v : String) (sub : Subsystem) (t : String)
      → lookup v g ≡ some sub
      → isin t sub.sources ≡ true
      → has t g ≡ true

-- A calculation that meets no missing key at the subsystems.
pub record IsDefined {A : Type 0} (c : Calculation A) (g : Dict Subsystem) : Type 0 where
  pub starts : (ss : String) → has ss g ≡ true → (a : A) × (c.start ss ≡ ok a)
  pub plans : (ss t : String) → has t g ≡ true → (p : Plan A) × (c.plan ss t ≡ ok p)

abbrev pub Returns : {A : Type 0} → (Dict A → Result (A × Dict A)) → Type 0
Returns {A} run = (cache : Dict A) → (r : A × Dict A) × (run cache ≡ ok r)

module _ {A : Type 0} (c : Calculation A) (g : Dict Subsystem) (shut : IsClosed g)
    (defined : IsDefined c g) where
  step-Returns :
      (call : String → Dict A → Result (A × Dict A)) (t : String) (p : Plan A) (a : A)
      (cache : Dict A)
      → Returns (call t)
      → (r : A × Dict A) × (take_step c call t p a cache ≡ ok r)
  unfolding take_step
  step-Returns call t skip a cache back = ((a, cache), refl)
  step-Returns call t (known_value x) a cache back = ((c.join a x, cache), refl)
  step-Returns call t recurse a cache back = let (r, e) = back cache in ((c.join a r.0, r.1), rw e)

  add_sources-Returns :
      (call : String → Dict A → Result (A × Dict A)) (ss : String) (ts : List String) (a : A)
      (cache : Dict A)
      → ((t : String) → isin t ts ≡ true → has t g ≡ true)
      → ((t : String) → isin t ts ≡ true → Returns (call t))
      → (r : A × Dict A) × (add_sources c call ss ts a cache ≡ ok r)
  unfolding add_sources isin
  add_sources-Returns call ss [] a cache known back = ((a, cache), refl)
  add_sources-Returns call ss (t ∷ ts) a cache known back =
      let here : isin t (t ∷ ts) ≡ true = rw eq_refl in
      let (p, planned) = defined.plans ss t (known t here) in
      let (r₁, stepped) = step-Returns call t p a cache (back t here) in
      let (r, rest) =
        add_sources-Returns call ss ts r₁.0 r₁.1 (λ u h. known u (isin_later u t ts h))
          (λ u h. back u (isin_later u t ts h)) in
      (r, rw (planned, stepped) rest)

  -- A depth of recursion from which on the calls for all names of a list return.
  abbrev pub Enough : String → Type 0
  Enough ss = (n : ℕ) × ((fuel : ℕ) → n ≤ fuel → Returns (calculate c fuel g ss))

  pub all-Enough :
      (ts : List String)
      → ((t : String) → isin t ts ≡ true → Enough t)
      → (n : ℕ) × ((fuel : ℕ)
          → n ≤ fuel
          → (t : String) → isin t ts ≡ true
          → Returns (calculate c fuel g t))
  unfolding isin
  all-Enough [] each = (0, λ fuel h t i. absurd (cc))
  all-Enough (t ∷ ts) each =
      let (n, first) = each t (rw eq_refl) in
      let (m, rest) = all-Enough ts (λ u h. each u (isin_later u t ts h)) in
      (
        n + m,
        λ fuel h u i. elim (Bool-cases (t == u)) [
          | inl e ↦ rw (← (eq_iff t u).0 e) (first fuel (omega arith))
          | inr e ↦ rest fuel (omega arith) u (rw e at i)
        ],
      )

  calculate-suc :
      (fuel : ℕ) (ss : String) (sub : Subsystem)
      → lookup ss g ≡ some sub
      → ((t : String) → isin t sub.sources ≡ true → Returns (calculate c fuel g t))
      → Returns (calculate c (suc fuel) g ss)
  unfolding calculate unless_cached compute store
  calculate-suc fuel ss sub at back cache =
      let (a, started) = defined.starts ss (lookup-has ss sub g at) in
      let (r, summed) =
        add_sources-Returns (calculate c fuel g) ss sub.sources a cache
          (λ t h. shut.closed ss sub t at h) back in
      cached (lookup ss cache) (
        (c.finish r.0, insert ss (c.finish r.0) r.1),
        rw (started, lookup-at_key g ss sub at, summed),
      )
    where
      cached :
          (o : Option A) {other : Result (A × Dict A)}
          → (r : A × Dict A) × (other ≡ ok r)
          → (r : A × Dict A) × (unless_cached c o cache other ≡ ok r)
      cached none p = p
      cached (some v) p = ((v, cache), refl)

  pub Grounded-Enough : (ss : String) → has ss g ≡ true → Grounded g ss → Enough ss
  Grounded-Enough ss known (Acc.intro _ below) =
      let (sub, at) = has-lookup ss g known in
      let (n, all) = all-Enough sub.sources (λ t i.
        let k = shut.closed ss sub t at i in
        Grounded-Enough t k (below t (record { from = sub; at = at; listed = i; known = k }))) in
      (
        suc n,
        elim [
          | zero ↦ λ h. absurd (omega arith)
          | suc fuel ↦ λ h. calculate-suc fuel ss sub at (all fuel (omega arith))
        ],
      )
