-- ===== src/Command/Ends.antt =====
-- rc/control/daqinterface.py, `do_command`: the loop that orders the subsystems ends.
use artdaq_daqinterface.Prelude.{
  IsDistinct, ℕ, zero, suc, ◌+◌, ◌<◌, ◌≤◌, String, ◌=ₛ◌, ◌≡◌, ◌≢◌, refl, ap, inl, inr, true, false,
  none, List, [], ◌∷◌, ◌++◌, Dict, isin, length, keys, Bool-cases, Option-cases, arith, eq_iff,
  eq_refl, length-append, Bool-absurd, subst, isin_later,
}
use artdaq_daqinterface.Bookkeeping.Graph.{Subsystem}
use artdaq_daqinterface.Command.Order.{
  remove_once, sources_copy, is_empty, is_next, next_subsystem, order_rounds, subsystems_in_order,
}
use artdaq_daqinterface.Command.Sources.{isin-remove_once, HasEntry}

remove_once-isin :
    (s x : String) (xs : List String) → isin s (remove_once x xs) ≡ true → isin s xs ≡ true
unfolding isin remove_once
remove_once-isin s x [] h = h
remove_once-isin s x (y ∷ ys) h = elim (Bool-cases (y =ₛ x)) [
  | inl here ↦ isin_later s y ys (rw here at h)
  | inr there ↦ elim (Bool-cases (y =ₛ s)) [
    | inl same ↦ rw same refl
    | inr other ↦ rw other (remove_once-isin s x ys (rw (there, other) at h))
  ]
]

absent-remove_once :
    (s x : String) (xs : List String) → isin s xs ≡ false → isin s (remove_once x xs) ≡ false
absent-remove_once s x xs h = elim (Bool-cases (isin s (remove_once x xs))) [
  | inl found ↦ absurd (Bool-absurd (remove_once-isin s x xs found) h)
  | inr absent ↦ absent
]

remove_once-IsDistinct :
    (x : String) (xs : List String)
    → IsDistinct xs
    → IsDistinct (remove_once x xs) × (isin x (remove_once x xs) ≡ false)
unfolding remove_once isin
remove_once-IsDistinct x [] d = (tt, refl)
remove_once-IsDistinct x (y ∷ ys) d = elim (Bool-cases (y =ₛ x)) [
  | inl here ↦ let same : y ≡ x = (eq_iff y x).0 here in rw here (d.1, rw same at d.0)
  | inr there ↦
      let (e, f) = remove_once-IsDistinct x ys d.1 in
      rw there ((absent-remove_once y x ys d.0, e), rw there f)
]

AllIn-[] :
    (xs : List String) → ((s : String) → isin s xs ≡ true → isin s [] ≡ true) → is_empty xs ≡ true
unfolding isin
AllIn-[] [] h = refl
AllIn-[] (x ∷ xs) h = absurd (cc (h x (rw eq_refl)))

sources_copy-is_empty :
    (ordered sources : List String)
    → IsDistinct sources
    → ((s : String) → isin s sources ≡ true → isin s ordered ≡ true)
    → is_empty (sources_copy ordered sources) ≡ true
unfolding sources_copy
sources_copy-is_empty [] sources d h = AllIn-[] sources h
sources_copy-is_empty (o ∷ rest) sources d h =
    let (e, f) = remove_once-IsDistinct o sources d in
    sources_copy-is_empty rest (remove_once o sources) e
      (λ s k. other s k f (h s (remove_once-isin s o sources k)))
  where
    other :
        (s : String)
        → isin s (remove_once o sources) ≡ true
        → isin o (remove_once o sources) ≡ false
        → isin s (o ∷ rest) ≡ true
        → isin s rest ≡ true
    other s k f found = elim (Bool-cases (o =ₛ s)) [
      | inl same ↦
          let e : o ≡ s = (eq_iff o s).0 same in
          absurd (Bool-absurd k (subst (λ x. isin x (remove_once o sources) ≡ false) e f))
      | inr apart ↦ unfold isin in rw (apart, isin) at found
    ]

-- The sources are subsystems of a rank below `n`.
abbrev pub AllLower : (String → ℕ) → Dict Subsystem → ℕ → List String → Type 0
AllLower rank g n [] = Unit
AllLower rank g n (s ∷ rest) =
    ((source : Subsystem) × HasEntry g s source) × (rank s < n) × AllLower rank g n rest

-- Of each subsystem the sources are subsystems of a lower rank, and none is named twice.
abbrev pub AllLayered : (String → ℕ) → Dict Subsystem → Dict Subsystem → Type 0
AllLayered rank g [] = Unit
AllLayered rank g (entry ∷ rest) =
    IsDistinct entry.1.sources
    × AllLower rank g (rank entry.0) entry.1.sources
    × AllLayered rank g rest

pub record IsLayered (rank : String → ℕ) (g : Dict Subsystem) : Type 0 where
  pub keys_distinct : IsDistinct (keys g)
  pub layered : AllLayered rank g g

AllLayered-entry :
    (rank : String → ℕ) (g rest : Dict Subsystem) (ss : String) (sub : Subsystem)
    → AllLayered rank g rest
    → HasEntry rest ss sub
    → IsDistinct sub.sources × AllLower rank g (rank ss) sub.sources
AllLayered-entry rank g [] ss sub all e = absurd e
AllLayered-entry rank g ((k, v) ∷ rest) ss sub (d, lower, all) (inl (e, f)) =
    rw (← e, ← f) (d, lower)
AllLayered-entry rank g ((k, v) ∷ rest) ss sub (d, lower, all) (inr later) =
    AllLayered-entry rank g rest ss sub all later

AllLower-isin :
    (rank : String → ℕ) (g : Dict Subsystem) (n : ℕ) (sources : List String) (s : String)
    → AllLower rank g n sources
    → isin s sources ≡ true
    → ((source : Subsystem) × HasEntry g s source) × (rank s < n)
unfolding isin
AllLower-isin rank g n [] s all h = cc
AllLower-isin rank g n (t ∷ rest) s (known, lower, all) h = elim (Bool-cases (t =ₛ s)) [
  | inl same ↦ let e : t ≡ s = (eq_iff t s).0 same in rw (← e) (known, lower)
  | inr other ↦ AllLower-isin rank g n rest s all (rw other at h)
]

is_next-failed :
    (ordered : List String) (ss : String) (sources : List String)
    → is_next ordered ss sources ≡ false
    → is_empty (sources_copy ordered sources) ≡ true
    → isin ss ordered ≡ true
unfolding is_next
is_next-failed ordered ss sources h e = elim (Bool-cases (isin ss ordered)) [
  | inl old ↦ old
  | inr new ↦ absurd (cc (rw (e, new) at h))
]

next_subsystem-none :
    (ordered : List String) (g : Dict Subsystem)
    → next_subsystem ordered g ≡ none
    → (ss : String) (sub : Subsystem) → HasEntry g ss sub
    → is_next ordered ss sub.sources ≡ false
unfolding next_subsystem
next_subsystem-none ordered [] h ss sub entry = absurd entry
next_subsystem-none ordered ((k, v) ∷ rest) h ss sub entry =
    elim (Bool-cases (is_next ordered k v.sources)) [
      | inl passed ↦ absurd (cc (rw passed at h))
      | inr failed ↦ elim entry [
        | inl (e, f) ↦ rw (← e, ← f) failed
        | inr later ↦ next_subsystem-none ordered rest (rw failed at h) ss sub later
      ]
    ]

all_ordered :
    (rank : String → ℕ) (g : Dict Subsystem) (ordered : List String)
    → IsLayered rank g
    → next_subsystem ordered g ≡ none
    → (n : ℕ) (ss : String) (sub : Subsystem) → rank ss < n
    → HasEntry g ss sub
    → isin ss ordered ≡ true
all_ordered rank g ordered layered h zero ss sub below entry = absurd (omega (arith, below))
all_ordered rank g ordered all h (suc n) ss sub below entry =
    let (d, lower) = AllLayered-entry rank g g ss sub all.layered entry in
    let earlier = λ (s : String) (k : isin s sub.sources ≡ true).
      let ((source, found), less) = AllLower-isin rank g (rank ss) sub.sources s lower k in
      all_ordered rank g ordered all h n s source (omega (arith, below, less)) found in
    is_next-failed ordered ss sub.sources (next_subsystem-none ordered g h ss sub entry)
      (sources_copy-is_empty ordered sub.sources d earlier)

length-remove_once :
    (x : String) (xs : List String) → isin x xs ≡ true → length xs ≡ suc (length (remove_once x xs))
unfolding isin remove_once
length-remove_once x [] h = cc
length-remove_once x (y ∷ ys) h = elim (Bool-cases (y =ₛ x)) [
  | inl here ↦ rw here refl
  | inr there ↦ rw there (ap suc (length-remove_once x ys (rw there at h)))
]

-- A list without repetitions, all of whose members another list has, is no longer than that one.
length-le-length :
    (xs ys : List String)
    → IsDistinct xs
    → ((s : String) → isin s xs ≡ true → isin s ys ≡ true)
    → length xs ≤ length ys
length-le-length [] ys d h = omega arith
length-le-length (x ∷ xs) ys d h =
    let shorter = length-remove_once x ys (h x (unfold isin in rw eq_refl)) in
    omega (arith, shorter, length-le-length xs (remove_once x ys) d.1 (λ s k. kept s k))
  where
    kept : (s : String) → isin s xs ≡ true → isin s (remove_once x ys) ≡ true
    kept s k = elim (isin-remove_once s x ys (h s (isin_later s x xs k))) [
      | inl found ↦ found
      | inr e ↦ absurd (Bool-absurd k (rw e at d.0))
    ]

entry_of_isin :
    (g : Dict Subsystem) (ss : String)
    → isin ss (keys g) ≡ true
    → (sub : Subsystem) × HasEntry g ss sub
unfolding isin keys
entry_of_isin [] ss h = cc
entry_of_isin ((k, v) ∷ rest) ss h = elim (Bool-cases (k =ₛ ss)) [
  | inl here ↦ (v, inl ((eq_iff k ss).0 here, refl))
  | inr there ↦ let (sub, e) = entry_of_isin rest ss (rw there at h) in (sub, inr e)
]

length-keys : (g : Dict Subsystem) → length (keys g) ≡ length g
unfolding keys
length-keys [] = refl
length-keys ((k, v) ∷ rest) = ap suc (length-keys rest)

module _ (rank : String → ℕ) (g : Dict Subsystem) (layered : IsLayered rank g) where
  next_subsystem-ne-none :
      (ordered : List String) → length ordered < length g → next_subsystem ordered g ≢ none
  next_subsystem-ne-none ordered short h =
      let enough = length-le-length (keys g) ordered layered.keys_distinct member in
      omega (arith, enough, short, length-keys g)
    where
      member : (s : String) → isin s (keys g) ≡ true → isin s ordered ≡ true
      member s k =
          let (sub, e) = entry_of_isin g s k in
          all_ordered rank g ordered layered h (suc (rank s)) s sub (omega arith) e

  order_rounds_end :
      (rounds : ℕ) (ordered : List String)
      → length ordered + rounds ≡ length g
      → order_rounds rounds g ordered ≢ none
  unfolding order_rounds
  order_rounds_end zero ordered counted = λ h. cc
  order_rounds_end (suc rounds) ordered counted = elim (Option-cases (next_subsystem ordered g)) [
    | inl nothing ↦ absurd (next_subsystem-ne-none ordered (omega (arith, counted)) nothing)
    | inr (ss, found) ↦
        rw (found, order_rounds)
          (order_rounds_end rounds (ordered ++ ss ∷ [])
            (omega (arith, counted, length-append ordered (ss ∷ []))))
  ]

  -- Where every source is a subsystem of a lower rank and none is named twice, the loop that orders
  -- the subsystems ends.
  pub subsystems_in_order_ends : subsystems_in_order g ≢ none
  unfolding subsystems_in_order
  subsystems_in_order_ends = order_rounds_end (length g) [] (omega arith)
