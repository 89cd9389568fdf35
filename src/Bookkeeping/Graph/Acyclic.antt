-- ===== src/Bookkeeping/Graph/Acyclic.antt =====
-- rc/control/bookkeeping.py, `find_cycle_in_subsystem_graph`: what a search without result shows.
use mathlib.Core.WellFounded.{Acc}
use artdaq_daqinterface.Prelude.{
  ℕ, zero, suc, String, ◌=ₛ◌ as ◌==◌, ◌≡◌, refl, sym, ◌∙◌, inl, inr, true, false, Option, none,
  some, List, [], ◌∷◌, Dict, isin, discard, has, lookup, eq_iff, eq_refl, isin-discard, Bool-cases,
}
use artdaq_daqinterface.Bookkeeping.Graph.{
  Subsystem, Marks, Search, clear, found, failed, extend, scan, enter, leave, scan_sources, dfs,
}

-- `w` is one of the sources of `v` that the search does not skip.
pub record Edge (g : Dict Subsystem) (v w : String) : Type 0 where
  pub from : Subsystem
  pub at : lookup v g ≡ some from
  pub listed : isin w from.sources ≡ true
  pub known : has w g ≡ true

-- Following sources from `v` ends, whatever is chosen.
abbrev pub Grounded : Dict Subsystem → String → Type 0
Grounded g v = Acc (λ w u. Edge g u w) v

-- Between two steps: what the search has left is grounded, and `in_stack` is part of `visited`.
pub record Inv (g : Dict Subsystem) (m : Marks) : Type 0 where
  pub done : (w : String) → isin w m.visited ≡ true → isin w m.in_stack ≡ false → Grounded g w
  pub stacked : (w : String) → isin w m.in_stack ≡ true → isin w m.visited ≡ true

-- The sets only move on: nothing visited is forgotten, and the stack is put back.
pub record Grows (m m' : Marks) : Type 0 where
  pub keeps : (w : String) → isin w m.visited ≡ true → isin w m'.visited ≡ true
  pub same_stack : (w : String) → isin w m'.in_stack ≡ isin w m.in_stack

-- What a visit that returns `None` gives.
abbrev pub Sound : Dict Subsystem → (String → Marks → Search) → Type 0
Sound g visit =
    (t : String) (m m' : Marks)
    → has t g ≡ true
    → isin t m.visited ≡ false
    → Inv g m
    → visit t m ≡ clear m'
    → Inv g m' × Grows m m' × (isin t m'.visited ≡ true)

pub Grows-refl : (m : Marks) → Grows m m
Grows-refl m = record { keeps = λ w h. h; same_stack = λ w. refl }

pub Grows-trans : {a b c : Marks} → Grows a b → Grows b c → Grows a c
Grows-trans p q = record {
  keeps = λ w h. q.keeps w (p.keeps w h);
  same_stack = λ w. q.same_stack w ∙ p.same_stack w;
}

-- After the loop every known source is visited and off the stack.
abbrev Settled : Dict Subsystem → List String → Marks → Type 0
Settled g ts m =
    (t : String)
    → isin t ts ≡ true
    → has t g ≡ true
    → (isin t m.visited ≡ true) × (isin t m.in_stack ≡ false)

-- The ways in which the loop can go past a source.
data Passes (visit : String → Marks → Search) (g : Dict Subsystem) (t : String) (m m₁ : Marks)
    : Type 0 where
  skipped : has t g ≡ false → m₁ ≡ m → Passes visit g t m m₁
  passed_over : isin t m.visited ≡ true → isin t m.in_stack ≡ false → m₁ ≡ m → Passes visit g t m m₁
  searched :
      has t g ≡ true → isin t m.visited ≡ false → visit t m ≡ clear m₁ → Passes visit g t m m₁

extend-clear :
    (ss : String) (rest : Marks → Search) (r : Search) {m' : Marks}
    → extend ss rest r ≡ clear m'
    → (m₁ : Marks) × (r ≡ clear m₁) × (rest m₁ ≡ clear m')
unfolding extend
extend-clear ss rest (clear m₁) e = (m₁, refl, e)
extend-clear ss rest (found p) e = cc
extend-clear ss rest (failed x) e = cc

module _ (visit : String → Marks → Search) (g : Dict Subsystem) (ss t : String) (ts : List String)
    (m m' : Marks) where
  scan-cons :
      scan visit g ss (t ∷ ts) m ≡ clear m'
      → (m₁ : Marks) × Passes visit g t m m₁ × (scan visit g ss ts m₁ ≡ clear m')
  unfolding scan
  scan-cons e = elim (Bool-cases (has t g)) [
    | inl k ↦ elim (Bool-cases (isin t m.visited)) [
      | inl v ↦ elim (Bool-cases (isin t m.in_stack)) [
        | inl s ↦ absurd (cc (rw (k, v, s) at e))
        | inr s ↦ (m, passed_over v s refl, rw (k, v, s) at e)
      ]
      | inr v ↦
          let (m₁, at, rest) =
            extend-clear ss (λ (x : Marks). scan visit g ss ts x) (visit t m) (rw (k, v) at e) in
          (m₁, searched k v at, rest)
    ]
    | inr k ↦ (m, skipped k refl, rw k at e)
  ]

module _ (g : Dict Subsystem) (visit : String → Marks → Search) (sound : Sound g visit) where
  -- One source: it is settled afterwards, if it is known.
  Passes-Sound :
      {t : String} {m m₁ : Marks}
      → Inv g m
      → Passes visit g t m m₁
      → Inv g m₁
        × Grows m m₁
        × (has t g ≡ true → (isin t m₁.visited ≡ true) × (isin t m₁.in_stack ≡ false))
  Passes-Sound {m} inv (skipped k e) = rw e (inv, Grows-refl m, λ h. absurd (cc))
  Passes-Sound {m} inv (passed_over v s e) = rw e (inv, Grows-refl m, λ h. (v, s))
  Passes-Sound {t} {m} {m₁} inv (searched k v at) =
      let (inv', grows, seen) = sound t m m₁ k v inv at in
      (inv', grows, λ h. (seen, grows.same_stack t ∙ off_stack t m inv v))
    where
      off_stack :
          (t : String) (m : Marks) → Inv g m → isin t m.visited ≡ false → isin t m.in_stack ≡ false
      off_stack t m inv v = elim (Bool-cases (isin t m.in_stack)) [
        | inl s ↦ absurd (cc (inv.stacked t s))
        | inr s ↦ s
      ]

  scan-Sound :
      (ss : String) (ts : List String) (m m' : Marks)
      → Inv g m
      → scan visit g ss ts m ≡ clear m'
      → Inv g m' × Grows m m' × Settled g ts m'
  unfolding isin scan
  scan-Sound ss [] m m' inv e =
      let same : m ≡ m' = cc in rw (← same) (inv, Grows-refl m, λ t h. absurd (cc))
  scan-Sound ss (t ∷ ts) m m' inv e =
      let (m₁, passes, rest) = scan-cons visit g ss t ts m m' e in
      let (inv₁, grows₁, head) = Passes-Sound inv passes in
      let (inv', grows', tail) = scan-Sound ss ts m₁ m' inv₁ rest in
      (
        inv',
        Grows-trans grows₁ grows',
        λ u h known. elim (Bool-cases (t == u)) [
          | inl e ↦
              let same : t ≡ u = (eq_iff t u).0 e in
              let (seen, off) = head (rw same known) in
              rw (← same) (grows'.keeps t seen, grows'.same_stack t ∙ off)
          | inr e ↦ tail u (rw e at h) known
        ],
      )

module _ (g : Dict Subsystem) where
  pub enter-Inv :
      (ss : String) (m : Marks) → isin ss m.visited ≡ false → Inv g m → Inv g (enter ss m)
  unfolding enter isin
  enter-Inv ss m new inv = record {
    done = λ w h k. elim (Bool-cases (ss == w)) [
      | inl e ↦ absurd (cc (rw e at k))
      | inr e ↦ inv.done w (rw e at h) (rw e at k)
    ];
    stacked = λ w k. elim (Bool-cases (ss == w)) [
      | inl e ↦ rw e
      | inr e ↦ rw e (inv.stacked w (rw e at k))
    ];
  }

abbrev left : String → Marks → Marks
left ss m = record m { in_stack = discard ss m.in_stack }

leave-clear :
    (ss : String) (r : Search) {m' : Marks}
    → leave ss r ≡ clear m'
    → (m₂ : Marks) × (r ≡ clear m₂) × (left ss m₂ ≡ m')
unfolding leave
leave-clear ss (clear m₂) e = (m₂, refl, cc)
leave-clear ss (found p) e = cc
leave-clear ss (failed x) e = cc

scan_sources-clear :
    (visit : String → Marks → Search) (g : Dict Subsystem) (ss : String) (o : Option Subsystem)
    (m : Marks) {m' : Marks}
    → scan_sources visit g ss o m ≡ clear m'
    → (sub : Subsystem) × (o ≡ some sub) × (scan visit g ss sub.sources m ≡ clear m')
unfolding scan_sources
scan_sources-clear visit g ss none m e = cc
scan_sources-clear visit g ss (some sub) m e = (sub, refl, e)

module _ (g : Dict Subsystem) (ss : String) (sub : Subsystem) (m m₂ : Marks)
    (at : lookup ss g ≡ some sub) (new : isin ss m.visited ≡ false) (inv : Inv g m)
    (inv₂ : Inv g m₂) (grows : Grows (enter ss m) m₂) (settled : Settled g sub.sources m₂) where
  -- All known sources are off the stack, hence grounded, and so is the subsystem.
  entered-Grounded : Grounded g ss
  entered-Grounded = Acc.intro ss λ t edge.
      let same : edge.from ≡ sub = cc (edge.at, at) in
      let (seen, off) = settled t (rw same at edge.listed) edge.known in inv₂.done t seen off

  entered_off : isin ss m.in_stack ≡ false
  entered_off = elim (Bool-cases (isin ss m.in_stack)) [
    | inl s ↦ absurd (cc (inv.stacked ss s))
    | inr s ↦ s
  ]

  left-Inv : Inv g (left ss m₂)
  left-Inv = record {
    done = λ w h k. elim (Bool-cases (ss == w)) [
      | inl e ↦ rw (← (eq_iff ss w).0 e) entered-Grounded
      | inr e ↦ inv₂.done w h (rw (isin-discard w ss m₂.in_stack, e) at k)
    ];
    stacked = λ w k. elim (Bool-cases (ss == w)) [
      | inl e ↦ absurd (cc (rw (isin-discard w ss m₂.in_stack, e) at k))
      | inr e ↦ inv₂.stacked w (rw (isin-discard w ss m₂.in_stack, e) at k)
    ];
  }

  left-Grows : Grows m (left ss m₂)
  unfolding enter isin
  left-Grows = record {
    keeps = λ w h. grows.keeps w (elim (Bool-cases (ss == w)) [ inl e ↦ rw e | inr e ↦ rw e h ]);
    same_stack = λ w. elim (Bool-cases (ss == w)) [
      | inl e ↦ rw (isin-discard w ss m₂.in_stack, e, ← (eq_iff ss w).0 e) (sym entered_off)
      | inr e ↦ rw (isin-discard w ss m₂.in_stack, e) (grows.same_stack w ∙ rw e)
    ];
  }

  left_visited : isin ss (left ss m₂).visited ≡ true
  unfolding enter isin
  left_visited = grows.keeps ss (rw eq_refl)

pub dfs-Sound : (fuel : ℕ) (g : Dict Subsystem) → Sound g (dfs fuel g)
unfolding dfs
dfs-Sound zero g ss m m' known new inv e = absurd (cc)
dfs-Sound (suc fuel) g ss m m' known new inv e =
    let (m₂, scanned, same) =
      leave-clear ss (scan_sources (dfs fuel g) g ss (lookup ss g) (enter ss m)) e in
    let (sub, at, loop) = scan_sources-clear (dfs fuel g) g ss (lookup ss g) (enter ss m) scanned in
    let (inv₂, grows, settled) =
      scan-Sound g (dfs fuel g) (dfs-Sound fuel g) ss sub.sources (enter ss m) m₂
        (enter-Inv g ss m new inv) loop in
    rw (← same) (
      left-Inv g ss sub m m₂ at new inv inv₂ grows settled,
      left-Grows g ss sub m m₂ at new inv inv₂ grows settled,
      left_visited g ss sub m m₂ at new inv inv₂ grows settled,
    )
