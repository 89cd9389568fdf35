-- ===== src/Command/Sources.antt =====
-- rc/control/daqinterface.py, `do_command`: in the order of the subsystems the sources come first.
use artdaq_daqinterface.Prelude.{
  ℕ, zero, suc, String, ◌=ₛ◌, ◌≡◌, refl, sym, ap, ◌∙◌, ◌⊎◌, inl, inr, Bool, true, false, not, ◌&&◌,
  ◌||◌, some, List, [], ◌∷◌, ◌++◌, Dict, isin, length, Bool-cases, Option-cases, eq_iff,
}
use mathlib.Core.List.{append_assoc, append-nil}
use artdaq_daqinterface.Bookkeeping.Graph.{Subsystem}
use artdaq_daqinterface.Command.Order.{
  remove_once, sources_copy, is_empty, is_next, next_subsystem, order_rounds, subsystems_in_order,
}

pub isin-remove_once :
    (s x : String) (xs : List String)
    → isin s xs ≡ true
    → (isin s (remove_once x xs) ≡ true) ⊎ (x ≡ s)
unfolding isin remove_once
isin-remove_once s x [] h = inl h
isin-remove_once s x (y ∷ ys) h = elim (Bool-cases (y =ₛ x)) [
  | inl here ↦ elim (Bool-cases (y =ₛ s)) [
    | inl same ↦ inr (sym ((eq_iff y x).0 here) ∙ (eq_iff y s).0 same)
    | inr other ↦ inl (rw here (rw other at h))
  ]
  | inr there ↦ elim (Bool-cases (y =ₛ s)) [
    | inl same ↦ inl (rw (there, same) refl)
    | inr other ↦ elim (isin-remove_once s x ys (rw other at h)) [
      | inl kept ↦ inl (rw (there, other) kept)
      | inr e ↦ inr e
    ]
  ]
]

sources_copy-isin :
    (ordered sources : List String) (s : String)
    → isin s sources ≡ true
    → (isin s (sources_copy ordered sources) ≡ true) ⊎ (isin s ordered ≡ true)
unfolding sources_copy isin
sources_copy-isin [] sources s h = inl h
sources_copy-isin (o ∷ rest) sources s h = elim (isin-remove_once s o sources h) [
  | inr e ↦ inr (rw ((eq_iff o s).1 e) refl)
  | inl kept ↦ elim (sources_copy-isin rest (remove_once o sources) s kept) [
    | inl left ↦ inl left
    | inr found ↦ inr (found_later (o =ₛ s) (isin s rest) found)
  ]
]
  where
    found_later : (a b : Bool) → b ≡ true → a || b ≡ true
    found_later true b h = refl
    found_later false b h = h

isin-is_empty : (xs : List String) (s : String) → is_empty xs ≡ true → isin s xs ≡ false
unfolding isin
isin-is_empty [] s h = refl
isin-is_empty (x ∷ xs) s h = cc

-- The dictionary has the subsystem under the name.
abbrev pub HasEntry : Dict Subsystem → String → Subsystem → Type 0
HasEntry [] ss sub = ⊥
HasEntry (entry ∷ rest) ss sub = ((entry.0 ≡ ss) × (entry.1 ≡ sub)) ⊎ HasEntry rest ss sub

-- The subsystem is new, and all its sources stand before it.
pub record IsPlaced (g : Dict Subsystem) (before : List String) (ss : String) : Type 0 where
  pub sub : Subsystem
  pub entry : HasEntry g ss sub
  pub sources_before : (s : String) → isin s sub.sources ≡ true → isin s before ≡ true
  pub not_before : isin ss before ≡ false

-- Each subsystem of the list is placed behind those of `before` and those before it.
abbrev pub AllPlaced : Dict Subsystem → List String → List String → Type 0
AllPlaced g before [] = Unit
AllPlaced g before (ss ∷ rest) = IsPlaced g before ss × AllPlaced g (before ++ ss ∷ []) rest

is_next-passed :
    (ordered : List String) (ss : String) (sources : List String)
    → is_next ordered ss sources ≡ true
    → ((s : String) → isin s sources ≡ true → isin s ordered ≡ true) × (isin ss ordered ≡ false)
unfolding is_next
is_next-passed ordered ss sources h =
    split (is_empty (sources_copy ordered sources)) (isin ss ordered) refl refl h
  where
    split :
        (a b : Bool)
        → is_empty (sources_copy ordered sources) ≡ a
        → isin ss ordered ≡ b
        → a && not b ≡ true
        → ((s : String) → isin s sources ≡ true → isin s ordered ≡ true) × (isin ss ordered ≡ false)
    split true false e f h = (
      (λ s k. elim (sources_copy-isin ordered sources s k) [
        | inl left ↦ absurd (differ (sym (isin-is_empty _ s e) ∙ left))
        | inr found ↦ found
      ]),
      f,
    )
      where
        differ : false ≡ true → ⊥
        differ h = cc
    split true true e f h = cc
    split false b e f h = cc

next_subsystem-IsPlaced :
    (ordered : List String) (g : Dict Subsystem) (ss : String)
    → next_subsystem ordered g ≡ some ss
    → IsPlaced g ordered ss
unfolding next_subsystem
next_subsystem-IsPlaced ordered [] ss h = cc
next_subsystem-IsPlaced ordered ((k, sub) ∷ rest) ss h =
    elim (Bool-cases (is_next ordered k sub.sources)) [
      | inl passed ↦
          let found : some k ≡ some ss = rw passed at h in
          let same : k ≡ ss = cc in
          let (before, new) = is_next-passed ordered k sub.sources passed in
          record {
            sub = sub;
            entry = inl (same, refl);
            sources_before = before;
            not_before = rw same at new;
          }
      | inr failed ↦
          let later = next_subsystem-IsPlaced ordered rest ss (rw failed at h) in
          record {
            sub = later.sub;
            entry = inr later.entry;
            sources_before = later.sources_before;
            not_before = later.not_before;
          }
    ]

-- What a run of the outer loop adds.
record Added (rounds : ℕ) (g : Dict Subsystem) (before out : List String) : Type 0 where
  added : List String
  joined : out ≡ before ++ added
  counted : length added ≡ rounds
  placed : AllPlaced g before added

order_rounds-Added :
    (rounds : ℕ) (g : Dict Subsystem) (before out : List String)
    → order_rounds rounds g before ≡ some out
    → Added rounds g before out
unfolding order_rounds
order_rounds-Added zero g before out h =
    let same : before ≡ out = cc in
    record { added = []; joined = sym same ∙ sym (append-nil before); counted = refl; placed = tt }
order_rounds-Added (suc rounds) g before out h = elim (Option-cases (next_subsystem before g)) [
  | inl nothing ↦ absurd (cc (rw (nothing, order_rounds) at h))
  | inr (ss, found) ↦
      let r = order_rounds-Added rounds g (before ++ ss ∷ []) out (rw (found, order_rounds) at h) in
      record {
        added = ss ∷ r.added;
        joined = r.joined ∙ append_assoc before (ss ∷ []) r.added;
        counted = ap suc r.counted;
        placed = (next_subsystem-IsPlaced before g ss found, r.placed);
      }
]

-- Where the loop ends, its list has as many subsystems as there are, none twice, and each behind all
-- its sources.
pub subsystems_in_order-AllPlaced :
    (g : Dict Subsystem) (out : List String)
    → subsystems_in_order g ≡ some out
    → (length out ≡ length g) × AllPlaced g [] out
unfolding subsystems_in_order
subsystems_in_order-AllPlaced g out h =
    let r = order_rounds-Added (length g) g [] out h in
    (ap length r.joined ∙ r.counted, rw r.joined r.placed)
