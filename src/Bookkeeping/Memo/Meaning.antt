-- ===== src/Bookkeeping/Memo/Meaning.antt =====
-- rc/control/bookkeeping.py: what the three cached calculations compute.
use artdaq_daqinterface.Prelude.{
  ℕ, zero, suc, String, ◌=ₛ◌ as ◌==◌, ◌≡◌, refl, inl, inr, Option, none, some, List, [], ◌∷◌, Dict,
  lookup, insert, eq_iff, Bool-cases, lookup-insert,
}
use artdaq_daqinterface.Bookkeeping.Errors.{Result, ok, ◌>>=◌, >>=-ok, at_key, at_key-lookup}
use artdaq_daqinterface.Bookkeeping.Graph.{Subsystem}
use artdaq_daqinterface.Bookkeeping.Memo.{
  Plan, skip, known_value, recurse, Calculation, take_step, add_sources, store, compute,
  unless_cached, calculate,
}

-- The calculation without a cache, as a relation: `Value ss v`, and `Sums ss ts a b` for the loop that
-- starts at `a`, goes through `ts` and ends at `b`.
module _ {A : Type 0} (c : Calculation A) (g : Dict Subsystem) where
  mutual
    pub data Value : String → A → Type 0 where
      value :
          {ss : String} {v : A} (sub : Subsystem) (a b : A)
          → lookup ss g ≡ some sub
          → c.start ss ≡ ok a
          → Sums ss sub.sources a b
          → v ≡ c.finish b
          → Value ss v

    pub data Sums : String → List String → A → A → Type 0 where
      done : {ss : String} {a : A} → Sums ss [] a a
      skipped :
          {ss t : String} {ts : List String} {a b : A}
          → c.plan ss t ≡ ok skip
          → Sums ss ts a b
          → Sums ss (t ∷ ts) a b
      added :
          {ss t : String} {ts : List String} {a b : A} (x : A)
          → c.plan ss t ≡ ok (known_value x)
          → Sums ss ts (c.join a x) b
          → Sums ss (t ∷ ts) a b
      called :
          {ss t : String} {ts : List String} {a b : A} (x : A)
          → c.plan ss t ≡ ok recurse
          → Value t x
          → Sums ss ts (c.join a x) b
          → Sums ss (t ∷ ts) a b

  -- Every entry of the cache is a value of its subsystem.
  abbrev pub IsSound : Dict A → Type 0
  IsSound cache = (ss : String) (v : A) → lookup ss cache ≡ some v → Value ss v

  abbrev pub CallSound : (String → Dict A → Result (A × Dict A)) → Type 0
  CallSound call =
      (ss : String) (cache : Dict A) (r : A × Dict A)
      → IsSound cache
      → call ss cache ≡ ok r
      → Value ss r.0 × IsSound r.1

module _ {A : Type 0} (c : Calculation A) (g : Dict Subsystem)
    (call : String → Dict A → Result (A × Dict A)) (sound : CallSound c g call) where
  add_sources-Sums :
      (ss : String) (ts : List String) (a : A) (cache : Dict A) (r : A × Dict A)
      → IsSound c g cache
      → add_sources c call ss ts a cache ≡ ok r
      → Sums c g ss ts a r.0 × IsSound c g r.1
  unfolding add_sources
  add_sources-Sums ss [] a cache r good e =
      let same : ◌≡◌ {A = A × Dict A} (a, cache) r = cc in rw (← same) (done, good)
  add_sources-Sums ss (t ∷ ts) a cache r good e =
      let (p, planned, more) =
        >>=-ok (c.plan ss t)
          (λ p. take_step c call t p a cache >>= λ r. add_sources c call ss ts r.0 r.1) e in
      let (r₁, stepped, rest) =
        >>=-ok (take_step c call t p a cache) (λ r. add_sources c call ss ts r.0 r.1) more in
      by_plan p r₁ planned stepped (λ good₁. add_sources-Sums ss ts r₁.0 r₁.1 r good₁ rest)
    where
      by_plan :
          (p : Plan A) (r₁ : A × Dict A)
          → c.plan ss t ≡ ok p
          → take_step c call t p a cache ≡ ok r₁
          → (IsSound c g r₁.1 → Sums c g ss ts r₁.0 r.0 × IsSound c g r.1)
          → Sums c g ss (t ∷ ts) a r.0 × IsSound c g r.1
      by_plan skip r₁ planned stepped go =
          let same : ◌≡◌ {A = A × Dict A} (a, cache) r₁ = cc in
          let (sums, kept) = go (rw (← same) good) in (skipped planned (rw (← same) at sums), kept)
      by_plan (known_value x) r₁ planned stepped go =
          let same : ◌≡◌ {A = A × Dict A} (c.join a x, cache) r₁ = cc in
          let (sums, kept) = go (rw (← same) good) in (added x planned (rw (← same) at sums), kept)
      by_plan recurse r₁ planned stepped go =
          let (p, returned, joined) = >>=-ok (call t cache) (λ p. ok (c.join a p.0, p.1)) stepped in
          let (val, good₁) = sound t cache p good returned in
          let same : ◌≡◌ {A = A × Dict A} (c.join a p.0, p.1) r₁ = cc in
          let (sums, kept) = go (rw (← same) good₁) in
          (called p.0 planned val (rw (← same) at sums), kept)

module _ {A : Type 0} (c : Calculation A) (g : Dict Subsystem) where
  -- A value that is written to the cache keeps the cache sound.
  pub insert-IsSound :
      (ss : String) (v : A) (cache : Dict A)
      → Value c g ss v
      → IsSound c g cache
      → IsSound c g (insert ss v cache)
  insert-IsSound ss v cache val good u w h = elim (Bool-cases (ss == u)) [
    | inl e ↦
        let at : some v ≡ some w = rw (lookup-insert, e) at h in
        let same : v ≡ w = cc in rw (← same, ← (eq_iff ss u).0 e) val
    | inr e ↦ good u w (rw (lookup-insert, e) at h)
  ]

  compute-Value :
      (call : String → Dict A → Result (A × Dict A)) (sound : CallSound c g call) (ss : String)
      (cache : Dict A) (r : A × Dict A)
      → IsSound c g cache
      → compute c call g ss cache ≡ ok r
      → Value c g ss r.0 × IsSound c g r.1
  unfolding compute store
  compute-Value call sound ss cache r good e =
      let (a, started, e₁) =
        >>=-ok (c.start ss)
          (λ a. at_key g ss >>= λ sub. add_sources c call ss sub.sources a cache >>= store c ss)
          e in
      let (sub, at, e₂) =
        >>=-ok (at_key g ss) (λ sub. add_sources c call ss sub.sources a cache >>= store c ss) e₁ in
      let (r₁, summed, stored) =
        >>=-ok (add_sources c call ss sub.sources a cache) (store c ss) e₂ in
      let (sums, good₁) = add_sources-Sums c g call sound ss sub.sources a cache r₁ good summed in
      let v : A = c.finish r₁.0 in
      let val : Value c g ss v = value sub a r₁.0 (at_key-lookup g ss sub at) started sums refl in
      let same : ◌≡◌ {A = A × Dict A} (v, insert ss v r₁.1) r = cc in
      rw (← same) (val, insert-IsSound ss v r₁.1 val good₁)

  pub calculate-Value : (fuel : ℕ) → CallSound c g (calculate c fuel g)
  unfolding calculate unless_cached
  calculate-Value zero ss cache r good e = absurd (cc)
  calculate-Value (suc fuel) ss cache r good e =
      cached (compute-Value (calculate c fuel g) (calculate-Value fuel) ss cache r good)
        (lookup ss cache) refl e
    where
      cached :
          (compute c (calculate c fuel g) g ss cache ≡ ok r → Value c g ss r.0 × IsSound c g r.1)
          → (o : Option A) → lookup ss cache ≡ o
          → unless_cached c o cache (compute c (calculate c fuel g) g ss cache) ≡ ok r
          → Value c g ss r.0 × IsSound c g r.1
      cached fresh none miss e' = fresh e'
      cached fresh (some v) hit e' =
          let same : ◌≡◌ {A = A × Dict A} (v, cache) r = cc in rw (← same) (good ss v hit, good)

module _ {A : Type 0} (c : Calculation A) (g : Dict Subsystem) where
  -- The relation determines the value.
  mutual
    pub Value-unique : {ss : String} {v w : A} → Value c g ss v → Value c g ss w → v ≡ w
    Value-unique (value sub a b at started sums is) (value sub' a' b' at' started' sums' is') =
        let same_sub : sub ≡ sub' = cc (at, at') in
        let same_a : a ≡ a' = cc (started, started') in
        let same_b : b ≡ b' = Sums-unique sums (rw (← same_sub, ← same_a) at sums') in
        cc (is, is', same_b)

    Sums-unique :
        {ss : String} {ts : List String} {a b b' : A}
        → Sums c g ss ts a b
        → Sums c g ss ts a b'
        → b ≡ b'
    Sums-unique done done = refl
    Sums-unique (skipped p s) (skipped q s') = Sums-unique s s'
    Sums-unique (skipped p s) (added x q s') = cc
    Sums-unique (skipped p s) (called x q v s') = cc
    Sums-unique (added x p s) (skipped q s') = cc
    Sums-unique (added x p s) (added y q s') =
        let same : x ≡ y = cc (p, q) in Sums-unique s (rw (← same) at s')
    Sums-unique (added x p s) (called y q v s') = cc
    Sums-unique (called x p v s) (skipped q s') = cc
    Sums-unique (called x p v s) (added y q s') = cc
    Sums-unique (called x p v s) (called y q w s') = Sums-unique s (rw (← Value-unique v w) at s')
