-- ===== src/Heartbeats/Remaining.antt =====
-- rc/control/manage_processes_direct.py, `check_proc_heartbeats_base`: what is left in a running system.
use artdaq_daqinterface.Prelude.{
  String, ◌=ₛ◌, ◌≡◌, refl, sym, ap, subst, ◌∙◌, Bool, true, false, List, [], ◌∷◌, isin, ◌⊎◌, inl,
  inr, ◌↔◌, if_cases, if_both, Bool-cases, Bool-absurd, eq_iff, eq_refl, Memᴰ, select, IsDistinct,
  arith,
}
use mathlib.Core.List.Memᴰ
use artdaq_daqinterface.Procinfo.{Procinfo}
use artdaq_daqinterface.Requirements.{
  Searches, Requirement, Loss, tolerated, violates_rule, violates_default, lose_process,
}
use artdaq_daqinterface.Heartbeats.{Pulse, quiet, loss_violates, remove, remove_all}

pub Mem-select {ℓ} :
    {A : Type ℓ} {x : A} (test : A → Bool) (xs : List A)
    → Memᴰ x (select test xs) ↔ (Memᴰ x xs × (test x ≡ true))
unfolding select
Mem-select test [] = (λ m. absurd (Memᴰ.not-nil m), λ k. k.0)
Mem-select {x} test (y ∷ ys) =
    let again : Memᴰ x (select test ys) ↔ (Memᴰ x ys × (test x ≡ true)) = Mem-select test ys in
    if_cases (λ zs. Memᴰ x zs ↔ (Memᴰ x (y ∷ ys) × (test x ≡ true))) (test y)
      (λ h. (λ m. kept h again.0 (Memᴰ.cases_cons m), λ k. found k.1 again.1 (Memᴰ.cases_cons k.0)))
      (λ h. (
        λ m. (Memᴰ.tail (again.0 m).0, (again.0 m).1),
        λ k. passed h k.1 again.1 (Memᴰ.cases_cons k.0),
      ))
  where
    kept :
        test y ≡ true
        → (Memᴰ x (select test ys) → Memᴰ x ys × (test x ≡ true))
        → (x ≡ y) ⊎ Memᴰ x (select test ys)
        → Memᴰ x (y ∷ ys) × (test x ≡ true)
    kept h out (inl e) = (Memᴰ.head e, ap test e ∙ h)
    kept h out (inr m) = (Memᴰ.tail (out m).0, (out m).1)

    found :
        test x ≡ true
        → (Memᴰ x ys × (test x ≡ true) → Memᴰ x (select test ys))
        → (x ≡ y) ⊎ Memᴰ x ys
        → Memᴰ x (y ∷ select test ys)
    found t back (inl e) = Memᴰ.head e
    found t back (inr m) = Memᴰ.tail (back (m, t))

    passed :
        test y ≡ false
        → test x ≡ true
        → (Memᴰ x ys × (test x ≡ true) → Memᴰ x (select test ys))
        → (x ≡ y) ⊎ Memᴰ x ys
        → Memᴰ x (select test ys)
    passed h t back (inl e) = absurd (Bool-absurd (ap test (sym e) ∙ t) h)
    passed h t back (inr m) = back (m, t)

abbrev pub labels : List Procinfo → List String
labels [] = []
labels (p ∷ ps) = p.label ∷ labels ps

pub isin-labels : {p : Procinfo} (ps : List Procinfo) → Memᴰ p ps → isin p.label (labels ps) ≡ true
unfolding isin
isin-labels [] m = absurd (Memᴰ.not-nil m)
isin-labels {p} (q ∷ ps) (Memᴰ.head e) = rw (ap (λ x. x.label) (sym e)) (rw (eq_refl p.label) refl)
isin-labels (q ∷ ps) (Memᴰ.tail m) = ground (arith, isin-labels ps m)

isin-remove :
    (l x : String) (ps : List Procinfo)
    → isin x (labels ps) ≡ false
    → isin x (labels (remove l ps)) ≡ false
unfolding isin remove
isin-remove l x [] h = refl
isin-remove l x (q ∷ ps) h =
    let again = isin-remove l x ps in
    if_cases (λ zs. isin x (labels zs) ≡ false) (q.label =ₛ l) (λ s. ground (arith, h))
      (λ s. ground (arith, h, again))

IsDistinct-remove :
    (l : String) (ps : List Procinfo) → IsDistinct (labels ps) → IsDistinct (labels (remove l ps))
unfolding remove
IsDistinct-remove l [] d = tt
IsDistinct-remove l (q ∷ ps) d =
    if_both (λ zs. IsDistinct (labels zs)) (q.label =ₛ l) d.1
      (isin-remove l q.label ps d.0, IsDistinct-remove l ps d.1)

-- Labels tell the processes apart.
pub IsDistinct-same :
    {p q : Procinfo} (ps : List Procinfo)
    → IsDistinct (labels ps)
    → Memᴰ p ps
    → Memᴰ q ps
    → p.label ≡ q.label
    → p ≡ q
IsDistinct-same [] d m n e = absurd (Memᴰ.not-nil m)
IsDistinct-same (r ∷ ps) d (Memᴰ.head a) (Memᴰ.head b) e = a ∙ sym b
IsDistinct-same (r ∷ ps) d (Memᴰ.head a) (Memᴰ.tail n) e = absurd (
    Bool-absurd
      (subst (λ l. isin l (labels ps) ≡ true) (sym e ∙ ap (λ x. x.label) a) (isin-labels ps n)) d.0)
IsDistinct-same (r ∷ ps) d (Memᴰ.tail m) (Memᴰ.head b) e = absurd (
    Bool-absurd
      (subst (λ l. isin l (labels ps) ≡ true) (e ∙ ap (λ x. x.label) b) (isin-labels ps m)) d.0)
IsDistinct-same (r ∷ ps) d (Memᴰ.tail m) (Memᴰ.tail n) e = IsDistinct-same ps d.1 m n e

Mem-remove :
    {p : Procinfo} (l : String) (ps : List Procinfo)
    → IsDistinct (labels ps)
    → Memᴰ p (remove l ps) ↔ (Memᴰ p ps × (p.label =ₛ l ≡ false))
unfolding remove
Mem-remove l [] d = (λ m. absurd (Memᴰ.not-nil m), λ k. k.0)
Mem-remove {p} l (q ∷ ps) d =
    let again : Memᴰ p (remove l ps) ↔ (Memᴰ p ps × (p.label =ₛ l ≡ false)) = Mem-remove l ps d.1 in
    if_cases (λ zs. Memᴰ p zs ↔ (Memᴰ p (q ∷ ps) × (p.label =ₛ l ≡ false))) (q.label =ₛ l)
      (λ h. (λ m. (Memᴰ.tail m, other h m), λ k. behind h k.1 (Memᴰ.cases_cons k.0)))
      (λ h. (λ m. kept h again.0 (Memᴰ.cases_cons m), λ k. back k.1 again.1 (Memᴰ.cases_cons k.0)))
  where
    other : q.label =ₛ l ≡ true → Memᴰ p ps → p.label =ₛ l ≡ false
    other h m = elim (Bool-cases (p.label =ₛ l)) [
      | inl same ↦ absurd (
          Bool-absurd
            (subst (λ x. isin x (labels ps) ≡ true)
              ((eq_iff p.label l).0 same ∙ sym ((eq_iff q.label l).0 h)) (isin-labels ps m))
            d.0)
      | inr differs ↦ differs
    ]

    behind : q.label =ₛ l ≡ true → p.label =ₛ l ≡ false → (p ≡ q) ⊎ Memᴰ p ps → Memᴰ p ps
    behind h k (inl e) = absurd (Bool-absurd (ap (λ x. x.label =ₛ l) e ∙ h) k)
    behind h k (inr m) = m

    kept :
        q.label =ₛ l ≡ false
        → (Memᴰ p (remove l ps) → Memᴰ p ps × (p.label =ₛ l ≡ false))
        → (p ≡ q) ⊎ Memᴰ p (remove l ps)
        → Memᴰ p (q ∷ ps) × (p.label =ₛ l ≡ false)
    kept h out (inl e) = (Memᴰ.head e, ap (λ x. x.label =ₛ l) e ∙ h)
    kept h out (inr m) = (Memᴰ.tail (out m).0, (out m).1)

    back :
        p.label =ₛ l ≡ false
        → (Memᴰ p ps × (p.label =ₛ l ≡ false) → Memᴰ p (remove l ps))
        → (p ≡ q) ⊎ Memᴰ p ps
        → Memᴰ p (q ∷ remove l ps)
    back k put (inl e) = Memᴰ.head e
    back k put (inr m) = Memᴰ.tail (put (m, k))

-- Where no loss raises an exception, all of them are removed and nothing else is.
pub Mem-remove_all :
    {p : Procinfo} (re : Searches) (lost ps : List Procinfo) (reqs : List Requirement)
    → IsDistinct (labels ps)
    → (remove_all re lost ps reqs).2 ≡ quiet
    → Memᴰ p (remove_all re lost ps reqs).0 ↔ (Memᴰ p ps × (isin p.label (labels lost) ≡ false))
unfolding remove_all isin
Mem-remove_all re [] ps reqs d e = (λ m. (m, refl), λ k. k.0)
Mem-remove_all {p} re (q ∷ lost) ps reqs d e =
    let left = remove q.label ps in
    let reqs' = (lose_process re left q reqs).0 in
    let again = Mem-remove_all {p = p} re lost left reqs' (IsDistinct-remove q.label ps d) in
    by_loss (lose_process re left q reqs).1 (Mem-remove {p = p} q.label ps d) again e
  where
    after : Loss → List Procinfo × List Requirement × Pulse
    after loss =
        let left = remove q.label ps in
        let reqs' = (lose_process re left q reqs).0 in
        elim loss [
          | tolerated ↦ remove_all re lost left reqs'
          | violates_rule regexp ↦ (left, reqs', loss_violates (violates_rule regexp))
          | violates_default description ↦
              (left, reqs', loss_violates (violates_default description))
        ]

    by_loss :
        (loss : Loss)
        → Memᴰ p (remove q.label ps) ↔ (Memᴰ p ps × (p.label =ₛ q.label ≡ false))
        → ((after tolerated).2 ≡ quiet
            → Memᴰ p (after tolerated).0
              ↔ (Memᴰ p (remove q.label ps) × (isin p.label (labels lost) ≡ false)))
        → (after loss).2 ≡ quiet
        → Memᴰ p (after loss).0 ↔ (Memᴰ p ps × (isin p.label (labels (q ∷ lost)) ≡ false))
    by_loss tolerated one rest f = (
      λ m.
          let (left, later) = (rest f).0 m in
          let (listed, differs) = one.0 left in
          (listed, ground (arith, later, differs, eq_iff p.label q.label, eq_iff q.label p.label)),
      λ k.
          let both = k.1 in
          (rest f).1 (
            one.1 (k.0, ground (arith, both, eq_iff p.label q.label, eq_iff q.label p.label)),
            ground (arith, both),
          ),
    )
    by_loss (violates_rule regexp) one rest f = cc
    by_loss (violates_default description) one rest f = cc
