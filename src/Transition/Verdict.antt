-- ===== src/Transition/Verdict.antt =====
-- rc/control/daqinterface.py, `check_proc_transition`: which processes pass, and what is recorded.
use artdaq_daqinterface.Prelude.{
  ℕ, zero, suc, ◌+◌, ◌<◌, ◌≤◌, String, ◌≡◌, refl, sym, ◌∙◌, ◌↔◌, ◌⊎◌, inl, inr, Bool, true, false,
  List, [], ◌∷◌, ◌++◌, Bool-cases, if◌then◌else◌, arith, subst,
}
use mathlib.Core.List.{append_assoc, append-nil}
use artdaq_daqinterface.Procinfo.{Procinfo}
use artdaq_daqinterface.Transition.{
  is_pending, is_fine, max_retries, retry, transition_error, after_retries, check_one, check_all,
  check_proc_transition,
}

-- A fine text is read after at most `rounds` sleeps from reading `k` on, and all those before it are
-- texts for which the check is repeated.
pub record Redeems (reads : ℕ → String) (target : String) (rounds k : ℕ) : Type 0 where
  pub sleeps : ℕ
  pub in_time : sleeps < rounds
  pub waiting : (i : ℕ) → i ≤ sleeps → is_pending (reads (i + k)) ≡ true
  pub fine : is_fine target (reads (sleeps + suc k)) ≡ true

module _ (reads : ℕ → String) (target : String) where
  pending_at : {m n : ℕ} → m ≡ n → is_pending (reads m) ≡ true → is_pending (reads n) ≡ true
  pending_at e = subst (λ n. is_pending (reads n) ≡ true) e

  fine_at : {m n : ℕ} → m ≡ n → is_fine target (reads m) ≡ true → is_fine target (reads n) ≡ true
  fine_at e = subst (λ n. is_fine target (reads n) ≡ true) e

  retry_keeps : (rounds k : ℕ) → (retry reads target rounds k true).1 ≡ true
  unfolding retry
  retry_keeps zero k = refl
  retry_keeps (suc rounds) k = elim (Bool-cases (is_pending (reads k))) [
    | inl pend ↦ elim (Bool-cases (is_fine target (reads (suc k)))) [
      | inl fine ↦ rw (pend, fine) (retry_keeps rounds (suc k))
      | inr other ↦ rw (pend, other) (retry_keeps rounds (suc k))
    ]
    | inr done ↦ rw done refl
  ]

  Redeems-suc :
      (rounds k : ℕ)
      → is_pending (reads k) ≡ true
      → Redeems reads target rounds (suc k)
      → Redeems reads target (suc rounds) k
  Redeems-suc rounds k pend r = record {
    sleeps = suc r.sleeps;
    in_time = omega (arith, r.in_time);
    waiting = waits;
    fine = fine_at (omega arith) r.fine;
  }
    where
      waits : (i : ℕ) → i ≤ suc r.sleeps → is_pending (reads (i + k)) ≡ true
      waits zero le = pending_at (omega arith) pend
      waits (suc i) le = pending_at (omega arith) (r.waiting i (omega (arith, le)))

  Redeems-pred :
      (rounds k : ℕ)
      → is_fine target (reads (suc k)) ≡ false
      → Redeems reads target (suc rounds) k
      → Redeems reads target rounds (suc k)
  Redeems-pred rounds k other r = shift r.sleeps r.in_time r.waiting r.fine
    where
      shift :
          (n : ℕ)
          → n < suc rounds
          → ((i : ℕ) → i ≤ n → is_pending (reads (i + k)) ≡ true)
          → is_fine target (reads (n + suc k)) ≡ true
          → Redeems reads target rounds (suc k)
      shift zero lt wait fine = absurd (differ (fine_at (omega arith) fine))
        where
          differ : is_fine target (reads (suc k)) ≡ true → ⊥
          differ h = cc
      shift (suc n) lt wait fine = record {
        sleeps = n;
        in_time = omega (arith, lt);
        waiting = λ i le. pending_at (omega arith) (wait (suc i) (omega (arith, le)));
        fine = fine_at (omega arith) fine;
      }

  retry-Redeems :
      (rounds k : ℕ) → (retry reads target rounds k false).1 ≡ true → Redeems reads target rounds k
  unfolding retry
  retry-Redeems zero k h = cc
  retry-Redeems (suc rounds) k h = elim (Bool-cases (is_pending (reads k))) [
    | inl pend ↦ elim (Bool-cases (is_fine target (reads (suc k)))) [
      | inl fine ↦ record {
        sleeps = 0;
        in_time = omega arith;
        waiting = λ i le. pending_at (omega (arith, le)) pend;
        fine = fine_at (omega arith) fine;
      }
      | inr other ↦ Redeems-suc rounds k pend (retry-Redeems rounds (suc k) (rw (pend, other) at h))
    ]
    | inr done ↦ absurd (cc (rw done at h))
  ]

  Redeems-retry :
      (rounds k : ℕ) → Redeems reads target rounds k → (retry reads target rounds k false).1 ≡ true
  unfolding retry
  Redeems-retry zero k r = absurd (omega (arith, r.in_time))
  Redeems-retry (suc rounds) k r =
      let pend : is_pending (reads k) ≡ true =
        pending_at (omega arith) (r.waiting 0 (omega arith)) in
      elim (Bool-cases (is_fine target (reads (suc k)))) [
        | inl fine ↦ rw (pend, fine) (retry_keeps rounds (suc k))
        | inr other ↦
            rw (pend, other) (Redeems-retry rounds (suc k) (Redeems-pred rounds k other r))
      ]

module _ (reads : Procinfo → ℕ → String) (target : String) where
  -- A process passes that has returned a fine text, or that is redeemed within the retries.
  abbrev pub Passes : Procinfo → Type 0
  Passes p = (is_fine target p.lastreturned ≡ true) ⊎ Redeems (reads p) target max_retries 0

  after_retries-passed : (p : Procinfo) (r : ℕ × Bool) → (after_retries reads target p r).1 ≡ r.1
  unfolding after_retries
  after_retries-passed p (n, true) = refl
  after_retries-passed p (n, false) = refl

  check_one-Passes : (p : Procinfo) → (check_one reads target p).1 ≡ true → Passes p
  unfolding check_one
  check_one-Passes p h = elim (Bool-cases (is_fine target p.lastreturned)) [
    | inl fine ↦ inl fine
    | inr other ↦ inr (
        retry-Redeems (reads p) target max_retries 0 (
          sym (after_retries-passed p (retry (reads p) target max_retries 0 false))
          ∙ (rw other at h)))
  ]

  Passes-check_one : (p : Procinfo) → Passes p → (check_one reads target p).1 ≡ true
  unfolding check_one
  Passes-check_one p (inl fine) = rw fine refl
  Passes-check_one p (inr r) = elim (Bool-cases (is_fine target p.lastreturned)) [
    | inl fine ↦ rw fine refl
    | inr other ↦ rw other (
        after_retries-passed p (retry (reads p) target max_retries 0 false)
        ∙ Redeems-retry (reads p) target max_retries 0 r)
  ]

  abbrev pub AllPass : List Procinfo → Type 0
  AllPass [] = Unit
  AllPass (p ∷ ps) = Passes p × AllPass ps

  -- The messages for those that do not pass, in the order of the processes.
  abbrev pub complaints : List Procinfo → List String
  complaints [] = []
  complaints (p ∷ ps) =
      let (p', passed) = check_one reads target p in
      if passed then complaints ps else transition_error reads target p' ∷ complaints ps

  check_all-AllPass :
      (ps : List Procinfo) (errors : List String)
      → (check_all reads target ps errors).raised ≡ false
      → AllPass ps
  unfolding check_all
  check_all-AllPass [] errors h = tt
  check_all-AllPass (p ∷ ps) errors h = elim (Bool-cases (check_one reads target p).1) [
    | inl passed ↦ (check_one-Passes p passed, check_all-AllPass ps errors (rw passed at h))
    | inr failed ↦ absurd (cc (rw failed at h))
  ]

  AllPass-check_all :
      (ps : List Procinfo) (errors : List String)
      → AllPass ps
      → (check_all reads target ps errors).raised ≡ false
  unfolding check_all
  AllPass-check_all [] errors all = refl
  AllPass-check_all (p ∷ ps) errors all =
      rw (Passes-check_one p all.0) (AllPass-check_all ps errors all.1)

  check_all-complaints :
      (ps : List Procinfo) (errors : List String)
      → (check_all reads target ps errors).transition_process_errors ≡ errors ++ complaints ps
  unfolding check_all
  check_all-complaints [] errors = sym (append-nil errors)
  check_all-complaints (p ∷ ps) errors = elim (Bool-cases (check_one reads target p).1) [
    | inl passed ↦ rw passed (check_all-complaints ps errors)
    | inr failed ↦
        let e = transition_error reads target (check_one reads target p).0 in
        rw failed (check_all-complaints ps (errors ++ e ∷ []) ∙ append_assoc errors (e ∷ []) _)
  ]

  -- The check raises no exception exactly where every process has returned a fine text, or comes to
  -- return one within twenty retries; for each other process, in order, an error is recorded.
  pub check_proc_transition_decides :
      (ps : List Procinfo) (errors : List String)
      → (((check_proc_transition reads target ps errors).raised ≡ false) ↔ AllPass ps)
        × ((check_proc_transition reads target ps errors).transition_process_errors
            ≡ errors ++ complaints ps)
  unfolding check_proc_transition
  check_proc_transition_decides ps errors =
      ((check_all-AllPass ps errors, AllPass-check_all ps errors), check_all-complaints ps errors)
