-- ===== src/Bookkeeping/Graph/Grounded.antt =====
-- rc/control/bookkeeping.py, `find_cycle_in_subsystem_graph`: the loop over all subsystems.
use artdaq_daqinterface.Prelude.{
  ℕ, String, ◌=ₛ◌ as ◌==◌, ◌≡◌, refl, inl, inr, true, List, [], ◌∷◌, Dict, isin, has, keys, arith,
  eq_iff, eq_refl, Bool-cases, isin_later,
}
use artdaq_daqinterface.Bookkeeping.Graph.{
  Subsystem, Marks, Search, clear, found, failed, dfs, or_next, search_roots, no_marks, depth,
  find_cycle_in_subsystem_graph,
}
use artdaq_daqinterface.Bookkeeping.Graph.Acyclic.{
  Grounded, Inv, Grows, Grows-refl, Grows-trans, dfs-Sound,
}

pub or_next-clear :
    (rest : Marks → Search) (r : Search) {m' : Marks}
    → or_next rest r ≡ clear m'
    → (m₁ : Marks) × (r ≡ clear m₁) × (rest m₁ ≡ clear m')
unfolding or_next
or_next-clear rest (clear m₁) e = (m₁, refl, e)
or_next-clear rest (found p) e = cc
or_next-clear rest (failed x) e = cc

module _ (fuel : ℕ) (g : Dict Subsystem) where
  -- A root is visited after its turn.
  search_roots-cons :
      (ss : String) (rest : List String) (m m' : Marks)
      → has ss g ≡ true
      → Inv g m
      → search_roots fuel g (ss ∷ rest) m ≡ clear m'
      → (m₁ : Marks) × Inv g m₁
        × Grows m m₁
        × (isin ss m₁.visited ≡ true)
        × (search_roots fuel g rest m₁ ≡ clear m')
  unfolding search_roots
  search_roots-cons ss rest m m' known inv e = elim (Bool-cases (isin ss m.visited)) [
    | inl v ↦ (m, inv, Grows-refl m, v, rw v at e)
    | inr v ↦
        let (m₁, at, more) =
          or_next-clear (λ (x : Marks). search_roots fuel g rest x) (dfs fuel g ss m) (rw v at e) in
        let (inv₁, grows, seen) = dfs-Sound fuel g ss m m₁ known v inv at in
        (m₁, inv₁, grows, seen, more)
  ]

  -- After the loop over the roots every root is visited.
  search_roots-Sound :
      (roots : List String) (m m' : Marks)
      → ((t : String) → isin t roots ≡ true → has t g ≡ true)
      → Inv g m
      → search_roots fuel g roots m ≡ clear m'
      → Inv g m' × Grows m m' × ((t : String) → isin t roots ≡ true → isin t m'.visited ≡ true)
  unfolding isin search_roots
  search_roots-Sound [] m m' known inv e =
      let same : m ≡ m' = cc in rw (← same) (inv, Grows-refl m, λ t h. absurd (cc))
  search_roots-Sound (ss ∷ rest) m m' known inv e =
      let (m₁, inv₁, grows₁, seen, more) =
        search_roots-cons ss rest m m' (known ss (rw eq_refl)) inv e in
      let (inv', grows', all) =
        search_roots-Sound rest m₁ m' (λ t h. known t (isin_later t ss rest h)) inv₁ more in
      (
        inv',
        Grows-trans grows₁ grows',
        λ t h. elim (Bool-cases (ss == t)) [
          | inl e ↦ rw (← (eq_iff ss t).0 e) (grows'.keeps ss seen)
          | inr e ↦ all t (rw e at h)
        ],
      )

-- The keys of a dictionary are its known names.
pub isin-keys : (k : String) (g : Dict Subsystem) → isin k (keys g) ≡ has k g
unfolding isin keys has
isin-keys k [] = refl
isin-keys k ((j, v) ∷ g) = ground (arith, isin-keys k g)

pub empty-Inv : (g : Dict Subsystem) → Inv g no_marks
unfolding isin
empty-Inv g = record { done = λ w h k. absurd (cc); stacked = λ w h. absurd (cc) }

-- Where the search for a cycle returns None, from every subsystem the walk along known sources ends.
pub find_cycle-Grounded :
    (g : Dict Subsystem) (m : Marks) (ss : String)
    → find_cycle_in_subsystem_graph g ≡ clear m
    → has ss g ≡ true
    → Grounded g ss
unfolding find_cycle_in_subsystem_graph isin
find_cycle-Grounded g m ss e known =
    let (inv, grows, all) =
      search_roots-Sound (depth g) g (keys g) no_marks m (λ t h. rw (← isin-keys t g) h)
        (empty-Inv g) e in
    inv.done ss (all ss (rw isin-keys known)) (grows.same_stack ss)
