-- ===== src/Wiring/Members.antt =====
-- rc/control/bookkeeping.py: which processes the lists behind the tables have.
use artdaq_daqinterface.Prelude.{
  String, ◌=ₛ◌, ◌≡◌, refl, sym, subst, true, false, List, [], ◌∷◌, ◌++◌, ◌⊎◌, inl, inr, ◌↔◌,
  if_cases, if_both, Bool-absurd, and-true, eq_iff, leb, Memᴰ,
}
use mathlib.Core.List.Memᴰ
use artdaq_daqinterface.Procinfo.{Procinfo}
use artdaq_daqinterface.Wiring.{
  Wiring, same_key, key_of, get_type_key, group_of, procinfos_by_ss_type, place_by_rank,
  sorted_by_rank,
}
use artdaq_daqinterface.Wiring.Groups.{scan, procinfos_by_ss_type-scan}

-- The two sides of an append, as one.
pub Mem-append {ℓ} :
    {A : Type ℓ} {x : A} (xs ys : List A) → Memᴰ x (xs ++ ys) ↔ (Memᴰ x xs ⊎ Memᴰ x ys)
Mem-append xs ys = (
  λ m. Memᴰ.append_cases xs m,
  λ o. elim o [ inl m ↦ Memᴰ.append_left ys m | inr m ↦ Memᴰ.append_right xs m ],
)

-- Lists with the same members keep them behind a common head.
Mem-cons_same {ℓ} :
    {A : Type ℓ} {x : A} (y : A) {xs ys : List A}
    → (Memᴰ x xs → Memᴰ x ys)
    → Memᴰ x (y ∷ xs)
    → Memᴰ x (y ∷ ys)
Mem-cons_same {x} y {xs} {ys} sub m = head_or_tail (Memᴰ.cases_cons m)
  where
    head_or_tail : (x ≡ y) ⊎ Memᴰ x xs → Memᴰ x (y ∷ ys)
    head_or_tail (inl e) = Memᴰ.head e
    head_or_tail (inr t) = Memᴰ.tail (sub t)

Mem-swap {ℓ} :
    {A : Type ℓ} {x : A} (y z : A) {xs : List A} → Memᴰ x (y ∷ z ∷ xs) → Memᴰ x (z ∷ y ∷ xs)
Mem-swap {x} y z {xs} m = first (Memᴰ.cases_cons m)
  where
    second : (x ≡ z) ⊎ Memᴰ x xs → Memᴰ x (z ∷ y ∷ xs)
    second (inl e) = Memᴰ.head e
    second (inr t) = Memᴰ.tail (Memᴰ.tail t)

    first : (x ≡ y) ⊎ Memᴰ x (z ∷ xs) → Memᴰ x (z ∷ y ∷ xs)
    first (inl e) = Memᴰ.tail (Memᴰ.head e)
    first (inr t) = second (Memᴰ.cases_cons t)

Mem-place_by_rank :
    {q : Procinfo} (p : Procinfo) (ps : List Procinfo)
    → Memᴰ q (place_by_rank p ps) ↔ Memᴰ q (p ∷ ps)
unfolding place_by_rank
Mem-place_by_rank p [] = (λ m. m, λ m. m)
Mem-place_by_rank {q} p (r ∷ rs) =
    let again : Memᴰ q (place_by_rank p rs) ↔ Memᴰ q (p ∷ rs) = Mem-place_by_rank p rs in
    if_both (λ ps. Memᴰ q ps ↔ Memᴰ q (p ∷ r ∷ rs)) (leb p.rank r.rank) (λ m. m, λ m. m)
      (λ m. Mem-swap r p (Mem-cons_same r again.0 m), λ m. Mem-cons_same r again.1 (Mem-swap p r m))

-- Sorting keeps the members.
pub Mem-sorted_by_rank :
    {q : Procinfo} (ps : List Procinfo) → Memᴰ q (sorted_by_rank ps) ↔ Memᴰ q ps
unfolding sorted_by_rank
Mem-sorted_by_rank [] = (λ m. m, λ m. m)
Mem-sorted_by_rank {q} (p ∷ ps) =
    let again : Memᴰ q (sorted_by_rank ps) ↔ Memᴰ q ps = Mem-sorted_by_rank ps in
    let placed : Memᴰ q (place_by_rank p (sorted_by_rank ps)) ↔ Memᴰ q (p ∷ sorted_by_rank ps) =
      Mem-place_by_rank p (sorted_by_rank ps) in
    (λ m. Mem-cons_same p again.0 (placed.0 m), λ m. placed.1 (Mem-cons_same p again.1 m))

-- A process has the subsystem and the type of a key.
abbrev pub HasKey : String → String → Procinfo → Type 0
HasKey ss proc_type p = (p.subsystem ≡ ss) × (get_type_key p.name ≡ proc_type)

same_key-HasKey :
    (ss proc_type : String) (p : Procinfo)
    → (same_key (key_of p) (ss, proc_type) ≡ true) ↔ HasKey ss proc_type p
same_key-HasKey ss proc_type p = (
  λ h.
      let (s, t) = and-true (p.subsystem =ₛ ss) (get_type_key p.name =ₛ proc_type) h in
      ((eq_iff p.subsystem ss).0 s, (eq_iff (get_type_key p.name) proc_type).0 t),
  λ k. rw ((eq_iff p.subsystem ss).1 k.0, (eq_iff (get_type_key p.name) proc_type).1 k.1) refl,
)

-- A process behind a head that the test refuses is none of those with the key.
not_refused :
    {q : Procinfo} (ss proc_type : String) (p : Procinfo) {ps : List Procinfo}
    → same_key (key_of p) (ss, proc_type) ≡ false
    → HasKey ss proc_type q
    → Memᴰ q (p ∷ ps)
    → Memᴰ q ps
not_refused {q} ss proc_type p {ps} h k m = by_case (Memᴰ.cases_cons m)
  where
    by_case : (q ≡ p) ⊎ Memᴰ q ps → Memᴰ q ps
    by_case (inl e) =
        absurd
          (Bool-absurd ((same_key-HasKey ss proc_type p).1 (subst (HasKey ss proc_type) e k)) h)
    by_case (inr t) = t

Mem-scan :
    {q : Procinfo} (ss proc_type : String) (ps : List Procinfo)
    → Memᴰ q (scan (ss, proc_type) ps) ↔ (Memᴰ q ps × HasKey ss proc_type q)
unfolding scan
Mem-scan ss proc_type [] = (λ m. absurd (Memᴰ.not-nil m), λ k. k.0)
Mem-scan {q} ss proc_type (p ∷ ps) =
    let again : Memᴰ q (scan (ss, proc_type) ps) ↔ (Memᴰ q ps × HasKey ss proc_type q) =
      Mem-scan ss proc_type ps in
    if_cases (λ qs. Memᴰ q qs ↔ (Memᴰ q (p ∷ ps) × HasKey ss proc_type q))
      (same_key (key_of p) (ss, proc_type))
      (λ h. (
        λ m. (Mem-cons_same p (λ t. (again.0 t).0) m, kept h again.0 (Memᴰ.cases_cons m)),
        λ k. Mem-cons_same p (λ t. again.1 (t, k.1)) k.0,
      ))
      (λ h. (
        λ m. (Memᴰ.tail (again.0 m).0, (again.0 m).1),
        λ k. again.1 (not_refused ss proc_type p h k.1 k.0, k.1),
      ))
  where
    kept :
        same_key (key_of p) (ss, proc_type) ≡ true
        → (Memᴰ q (scan (ss, proc_type) ps) → Memᴰ q ps × HasKey ss proc_type q)
        → (q ≡ p) ⊎ Memᴰ q (scan (ss, proc_type) ps)
        → HasKey ss proc_type q
    kept h again (inl e) =
        subst (HasKey ss proc_type) (sym e) ((same_key-HasKey ss proc_type p).0 h)
    kept h again (inr m) = (again m).1

-- The processes under a key are those of the subsystem and the type.
pub Mem-group :
    {q : Procinfo} (w : Wiring) (ss proc_type : String)
    → Memᴰ q (group_of (ss, proc_type) (procinfos_by_ss_type w))
      ↔ (Memᴰ q w.procinfos × HasKey ss proc_type q)
Mem-group w ss proc_type = rw (procinfos_by_ss_type-scan w (ss, proc_type)) (
  λ m.
      let (listed, key) = (Mem-scan ss proc_type (sorted_by_rank w.procinfos)).0 m in
      ((Mem-sorted_by_rank w.procinfos).0 listed, key),
  λ k.
      (Mem-scan ss proc_type (sorted_by_rank w.procinfos)).1
        ((Mem-sorted_by_rank w.procinfos).1 k.0, k.1),
)
