-- ===== src/Bookkeeping/Graph/Depth.antt =====
-- rc/control/bookkeeping.py, `find_cycle_in_subsystem_graph`: the depth of recursion is enough.
use artdaq_daqinterface.Prelude.{
  ℕ, zero, suc, ◌≤◌, ◌<◌, String, ◌=ₛ◌ as ◌==◌, ◌≡◌, ◌≢◌, refl, ◌⊎◌, inl, inr, true, false, List,
  [], ◌∷◌, Dict, isin, has, lookup, keys, length, if◌then◌else◌, arith, eq_iff, eq_refl, Bool-cases,
  isin_later, has-lookup,
}
use artdaq_daqinterface.Bookkeeping.Errors.{Fault}
use artdaq_daqinterface.Bookkeeping.Graph.{
  Subsystem, Marks, Search, clear, found, failed, extend, scan, enter, leave, scan_sources, dfs,
  or_next, search_roots, no_marks, depth, find_cycle_in_subsystem_graph,
}
use artdaq_daqinterface.Bookkeeping.Graph.Acyclic.{Inv, Sound, enter-Inv, dfs-Sound}
use artdaq_daqinterface.Bookkeeping.Graph.Grounded.{empty-Inv, isin-keys}

-- How many of the names are not in the set.
unseen : List String → List String → ℕ
unseen seen [] = 0
unseen seen (k ∷ ks) = if isin k seen then unseen seen ks else suc (unseen seen ks)

unseen-le-length : (seen ks : List String) → unseen seen ks ≤ length ks
unfolding unseen
unseen-le-length seen [] = omega arith
unseen-le-length seen (k ∷ ks) = ground (arith, unseen-le-length seen ks)

unseen_mono :
    (a b ks : List String)
    → ((w : String) → isin w a ≡ true → isin w b ≡ true)
    → unseen b ks ≤ unseen a ks
unfolding unseen
unseen_mono a b [] h = omega arith
unseen_mono a b (k ∷ ks) h = ground (arith, unseen_mono a b ks h, h k)

unseen-cons :
    (t : String) (a ks : List String)
    → isin t ks ≡ true
    → isin t a ≡ false
    → unseen (t ∷ a) ks < unseen a ks
unfolding unseen isin
unseen-cons t a [] h new = absurd (cc)
unseen-cons t a (k ∷ ks) h new = elim (Bool-cases (k == t)) [
  | inl e ↦
      let same : k ≡ t = (eq_iff k t).0 e in
      rw (same, eq_refl, new) (omega (arith, unseen_mono a (t ∷ a) ks (λ w. isin_later w t a)))
  | inr e ↦
      let ih = unseen-cons t a ks (rw e at h) new in
      elim (Bool-cases (t == k)) [
        | inl f ↦ absurd (cc (rw ((eq_iff t k).0 f, eq_refl) at e))
        | inr f ↦ elim (Bool-cases (isin k a)) [
          | inl s ↦ rw (f, s) ih
          | inr s ↦ rw (f, s) (omega (arith, ih))
        ]
      ]
]

-- A visit of a new subsystem does not fail while the unseen subsystems are fewer than `fuel`.
abbrev Succeeds : Dict Subsystem → ℕ → (String → Marks → Search) → Type 0
Succeeds g fuel visit =
    (t : String) (m : Marks) (e : Fault)
    → has t g ≡ true
    → isin t m.visited ≡ false
    → Inv g m
    → unseen m.visited (keys g) < fuel
    → visit t m ≢ failed e

extend-failed :
    (ss : String) (rest : Marks → Search) (r : Search) {e : Fault}
    → extend ss rest r ≡ failed e
    → (r ≡ failed e) ⊎ ((m₁ : Marks) × (r ≡ clear m₁) × (rest m₁ ≡ failed e))
unfolding extend
extend-failed ss rest (clear m₁) h = inr (m₁, refl, h)
extend-failed ss rest (found p) h = cc
extend-failed ss rest (failed x) h = inl h

module _ (g : Dict Subsystem) (fuel : ℕ) (visit : String → Marks → Search) (sound : Sound g visit)
    (succeeds : Succeeds g fuel visit) (ss : String) where
  scan-ne-failed :
      (ts : List String) (m : Marks) (e : Fault)
      → Inv g m
      → unseen m.visited (keys g) < fuel
      → scan visit g ss ts m ≢ failed e
  unfolding scan
  scan-ne-failed [] m e inv few h = cc
  scan-ne-failed (t ∷ ts) m e inv few h = elim (Bool-cases (has t g)) [
    | inl k ↦ elim (Bool-cases (isin t m.visited)) [
      | inl v ↦ elim (Bool-cases (isin t m.in_stack)) [
        | inl s ↦ cc (rw (k, v, s) at h)
        | inr s ↦ scan-ne-failed ts m e inv few (rw (k, v, s) at h)
      ]
      | inr v ↦
          elim (extend-failed ss (λ (x : Marks). scan visit g ss ts x) (visit t m)
            (rw (k, v) at h)) [
              | inl r ↦ succeeds t m e k v inv few r
              | inr (m₁, r, h₁) ↦
                  let (inv₁, grows, seen) = sound t m m₁ k v inv r in
                  scan-ne-failed ts m₁ e inv₁
                    (omega (arith, unseen_mono m.visited m₁.visited (keys g) grows.keeps)) h₁
            ]
    ]
    | inr k ↦ scan-ne-failed ts m e inv few (rw k at h)
  ]

leave-failed : (ss : String) (r : Search) {e : Fault} → leave ss r ≡ failed e → r ≡ failed e
unfolding leave
leave-failed ss (clear m) h = cc
leave-failed ss (found p) h = cc
leave-failed ss (failed x) h = h

dfs-Succeeds : (fuel : ℕ) (g : Dict Subsystem) → Succeeds g fuel (dfs fuel g)
unfolding dfs scan_sources enter
dfs-Succeeds zero g t m e known new inv few h = omega arith
dfs-Succeeds (suc fuel) g t m e known new inv few h =
    let (sub, at) = has-lookup t g known in
    let inner = leave-failed t (scan_sources (dfs fuel g) g t (lookup t g) (enter t m)) h in
    scan-ne-failed g fuel (dfs fuel g) (dfs-Sound fuel g) (dfs-Succeeds fuel g) t sub.sources
      (enter t m) e (enter-Inv g t m new inv)
      (omega (arith, unseen-cons t m.visited (keys g) (rw isin-keys known) new)) (rw at at inner)

or_next-failed :
    (rest : Marks → Search) (r : Search) {e : Fault}
    → or_next rest r ≡ failed e
    → (r ≡ failed e) ⊎ ((m₁ : Marks) × (r ≡ clear m₁) × (rest m₁ ≡ failed e))
unfolding or_next
or_next-failed rest (clear m₁) h = inr (m₁, refl, h)
or_next-failed rest (found p) h = cc
or_next-failed rest (failed x) h = inl h

length-keys : (g : Dict Subsystem) → length (keys g) ≡ length g
unfolding keys
length-keys [] = refl
length-keys ((k, v) ∷ g) = omega (arith, length-keys g)

search_roots-ne-failed :
    (g : Dict Subsystem) (roots : List String) (m : Marks) (e : Fault)
    → ((t : String) → isin t roots ≡ true → has t g ≡ true)
    → Inv g m
    → search_roots (depth g) g roots m ≢ failed e
unfolding search_roots isin
search_roots-ne-failed g [] m e known inv h = cc
search_roots-ne-failed g (ss ∷ rest) m e known inv h =
    let known' = λ (t : String) (i : isin t rest ≡ true). known t (isin_later t ss rest i) in
    let k = known ss (rw eq_refl) in
    let next = λ (x : Marks). search_roots (depth g) g rest x in
    elim (Bool-cases (isin ss m.visited)) [
      | inl v ↦ search_roots-ne-failed g rest m e known' inv (rw v at h)
      | inr v ↦ elim (or_next-failed next (dfs (depth g) g ss m) (rw v at h)) [
        | inl r ↦
            dfs-Succeeds (depth g) g ss m e k v inv
              (omega (arith, unseen-le-length m.visited (keys g), length-keys g)) r
        | inr (m₁, r, h₁) ↦
            let (inv₁, grows, seen) = dfs-Sound (depth g) g ss m m₁ k v inv r in
            search_roots-ne-failed g rest m₁ e known' inv₁ h₁
      ]
    ]

-- The search always returns: it meets neither a missing key nor the end of its fuel.
pub find_cycle-ne-failed :
    (g : Dict Subsystem) (e : Fault) → find_cycle_in_subsystem_graph g ≢ failed e
unfolding find_cycle_in_subsystem_graph
find_cycle-ne-failed g e =
    search_roots-ne-failed g (keys g) no_marks e (λ t h. rw (← isin-keys t g) h) (empty-Inv g)
