-- ===== src/Heartbeats/Met.antt =====
-- rc/control/manage_processes_direct.py, `check_proc_heartbeats_base`: the requirements behind the
-- losses that it tolerates.
use artdaq_daqinterface.Prelude.{◌≡◌, refl, subst, List, [], ◌∷◌, ◌⊎◌, inl, inr, ◌↔◌, some, Memᴰ}
use mathlib.Core.List.Memᴰ
use artdaq_daqinterface.Procinfo.{Procinfo}
use artdaq_daqinterface.Requirements.{
  Searches, Requirement, Loss, tolerated, violates_rule, violates_default, lose_process,
}
use artdaq_daqinterface.Requirements.Counting.{AllMet, keep, keep-count_down, count_down-AllMet}
use artdaq_daqinterface.Heartbeats.{Pulse, quiet, loss_violates, remove, remove_all}

-- The processes that are gone, those of `lost` behind one another in front of the earlier ones.
abbrev pub gone_with : List Procinfo → List Procinfo → List Procinfo
gone_with [] gone = gone
gone_with (p ∷ lost) gone = gone_with lost (p ∷ gone)

pub Mem-gone_with :
    {p : Procinfo} (lost gone : List Procinfo)
    → Memᴰ p (gone_with lost gone) ↔ (Memᴰ p lost ⊎ Memᴰ p gone)
Mem-gone_with [] gone = (λ m. inr m, λ o. elim o [ inl m ↦ absurd (Memᴰ.not-nil m) | inr m ↦ m ])
Mem-gone_with {p} (q ∷ lost) gone =
    let again : Memᴰ p (gone_with lost (q ∷ gone)) ↔ (Memᴰ p lost ⊎ Memᴰ p (q ∷ gone)) =
      Mem-gone_with lost (q ∷ gone) in
    (
      λ m. elim (again.0 m) [ inl n ↦ inl (Memᴰ.tail n) | inr n ↦ out (Memᴰ.cases_cons n) ],
      λ o. again.1 (elim o [ inl n ↦ back (Memᴰ.cases_cons n) | inr n ↦ inr (Memᴰ.tail n) ]),
    )
  where
    out : (p ≡ q) ⊎ Memᴰ p gone → Memᴰ p (q ∷ lost) ⊎ Memᴰ p gone
    out (inl e) = inl (Memᴰ.head e)
    out (inr m) = inr m

    back : (p ≡ q) ⊎ Memᴰ p lost → Memᴰ p lost ⊎ Memᴰ p (q ∷ gone)
    back (inl e) = inr (Memᴰ.head e)
    back (inr m) = inl m

lose_process-AllMet :
    (re : Searches) (left gone : List Procinfo) (p : Procinfo) (reqs : List Requirement)
    → AllMet re gone reqs
    → (lose_process re left p reqs).1 ≡ tolerated
    → AllMet re (p ∷ gone) (lose_process re left p reqs).0
lose_process-AllMet re left gone p reqs met e =
    let (none_violated, same) =
      keep-count_down re p left reqs (lose_process re left p reqs).0
        (kept (lose_process re left p reqs) e) in
    subst (AllMet re (p ∷ gone)) same (count_down-AllMet re gone p reqs none_violated met)
  where
    kept : (x : List Requirement × Loss) → x.1 ≡ tolerated → keep x ≡ some x.0
    kept (rs, tolerated) h = refl
    kept (rs, violates_rule regexp) h = cc
    kept (rs, violates_default description) h = cc

-- Where no loss raises an exception, the requirements are met with all of them counted.
pub remove_all-AllMet :
    (re : Searches) (lost ps : List Procinfo) (reqs : List Requirement) (gone : List Procinfo)
    → AllMet re gone reqs
    → (remove_all re lost ps reqs).2 ≡ quiet
    → AllMet re (gone_with lost gone) (remove_all re lost ps reqs).1
unfolding remove_all
remove_all-AllMet re [] ps reqs gone met e = met
remove_all-AllMet re (q ∷ lost) ps reqs gone met e =
    let left = remove q.label ps in
    let reqs' = (lose_process re left q reqs).0 in
    by_loss (lose_process re left q reqs).1 refl
      (λ now. remove_all-AllMet re lost left reqs' (q ∷ gone) now) e
  where
    after : Loss → List Procinfo × List Requirement × Pulse
    after loss =
        let left = remove q.label ps in
        let reqs' = (lose_process re left q reqs).0 in
        elim loss [
          | tolerated ↦ remove_all re lost left reqs'
          | violates_rule regexp ↦ (left, reqs', loss_violates (violates_rule regexp))
          | violates_default description ↦
              (left, reqs', loss_violates (violates_default description))
        ]

    by_loss :
        (loss : Loss)
        → (lose_process re (remove q.label ps) q reqs).1 ≡ loss
        → (AllMet re (q ∷ gone) (lose_process re (remove q.label ps) q reqs).0
            → (after tolerated).2 ≡ quiet
            → AllMet re (gone_with lost (q ∷ gone)) (after tolerated).1)
        → (after loss).2 ≡ quiet
        → AllMet re (gone_with lost (q ∷ gone)) (after loss).1
    by_loss tolerated same rest f =
        rest (lose_process-AllMet re (remove q.label ps) gone q reqs met same) f
    by_loss (violates_rule regexp) same rest f = cc
    by_loss (violates_default description) same rest f = cc
