-- ===== src/Bookkeeping/Graph/Cycle.antt =====
-- rc/control/bookkeeping.py, `find_cycle_in_subsystem_graph`: what a reported path is.
use artdaq_daqinterface.Prelude.{
  ℕ, String, ◌≡◌, refl, ◌∙◌, inl, inr, true, false, List, [], ◌∷◌, Dict, isin, has, keys, eq_refl,
  Bool-cases, isin_later,
}
use artdaq_daqinterface.Bookkeeping.Graph.{
  Subsystem, Marks, found, dfs, search_roots, no_marks, depth, find_cycle_in_subsystem_graph,
}
use artdaq_daqinterface.Bookkeeping.Graph.Acyclic.{Inv, dfs-Sound}
use artdaq_daqinterface.Bookkeeping.Graph.Grounded.{empty-Inv, isin-keys}
use artdaq_daqinterface.Bookkeeping.Graph.Traced.{
  Walk, last, front, Traced, dfs-Reports, or_next-found,
}

-- A path that follows the sources and ends at a name that it has passed before.
pub record IsCycle (g : Dict Subsystem) (path : List String) : Type 0 where
  pub start : String
  pub rest : List String
  pub spelled : path ≡ start ∷ rest
  pub walked : Walk g start rest
  pub closed : isin (last start rest) (front start rest) ≡ true

-- With an empty stack the path can close only in itself.
Traced-IsCycle :
    {g : Dict Subsystem} {s path : List String} {v : String}
    → ((w : String) → isin w s ≡ false)
    → Traced g s v path
    → IsCycle g path
Traced-IsCycle {v} empty tr = record {
  start = v;
  rest = tr.rest;
  spelled = tr.spelled;
  walked = tr.walked;
  closed = elim tr.closed [ inl own ↦ own | inr up ↦ absurd (cc (empty (last v tr.rest))) ];
}

module _ (fuel : ℕ) (g : Dict Subsystem) where
  search_roots-IsCycle :
      (roots : List String) (m : Marks) (path : List String)
      → ((t : String) → isin t roots ≡ true → has t g ≡ true)
      → Inv g m
      → ((w : String) → isin w m.in_stack ≡ false)
      → search_roots fuel g roots m ≡ found path
      → IsCycle g path
  unfolding search_roots isin
  search_roots-IsCycle [] m path known inv empty e = cc
  search_roots-IsCycle (ss ∷ rest) m path known inv empty e =
      let go = search_roots-IsCycle rest in
      let known' = λ (t : String) (h : isin t rest ≡ true). known t (isin_later t ss rest h) in
      let k = known ss (rw eq_refl) in
      elim (Bool-cases (isin ss m.visited)) [
        | inl v ↦ go m path known' inv empty (rw v at e)
        | inr v ↦
            elim (or_next-found (λ (x : Marks). search_roots fuel g rest x) (dfs fuel g ss m)
              (rw v at e)) [
                | inl r ↦ Traced-IsCycle empty (dfs-Reports fuel g ss m path k v inv r)
                | inr (m₁, r, e₁) ↦
                    let (inv₁, grows, seen) = dfs-Sound fuel g ss m m₁ k v inv r in
                    go m₁ path known' inv₁ (λ w. grows.same_stack w ∙ empty w) e₁
              ]
      ]

-- The path of the error message is a cycle: every name after the first is a source of the one
-- before it that is a subsystem, and the last name stands in the path before.
pub reported-IsCycle :
    (g : Dict Subsystem) (path : List String)
    → find_cycle_in_subsystem_graph g ≡ found path
    → IsCycle g path
unfolding find_cycle_in_subsystem_graph isin
reported-IsCycle g path e =
    search_roots-IsCycle (depth g) g (keys g) no_marks path (λ t h. rw (← isin-keys t g) h)
      (empty-Inv g) (λ w. refl) e
