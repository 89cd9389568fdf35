-- ===== src/Requirements/Counting.antt =====
-- rc/control/daqinterface.py: what tolerated losses leave of the requirements.
use artdaq_daqinterface.Prelude.{
  ℕ, zero, suc, ◌+◌, ◌≤◌, String, ◌≡◌, ◌≢◌, refl, sym, ap, ◌∙◌, ◌||◌, inl, inr, Bool, true, false,
  Option, none, some, List, [], ◌∷◌, if◌then◌else◌, Bool-cases, arith, pos, dec, is_less,
}
use artdaq_daqinterface.Procinfo.{Procinfo, is_boardreader}
use artdaq_daqinterface.Requirements.{
  Searches, Requirement, Loss, tolerated, violates_rule, violates_default, count_down,
  fhicl_writes_root_file, process_description, loss_by_default, judge, lose_process,
}

-- A requirement of which `lost` matching processes are lost, and that is still met.
pub record IsMet (r : Requirement) (lost : ℕ) : Type 0 where
  pub left : ℕ
  pub current : r.current_count ≡ pos left
  pub counted : left + lost ≡ r.original_count
  pub enough : r.minimum_count ≤ left

-- How many of the processes match.
abbrev pub losses : Searches → String → List Procinfo → ℕ
losses re regexp [] = 0
losses re regexp (p ∷ ps) = (if re.search regexp p.label then 1 else 0) + losses re regexp ps

abbrev pub AllMet : Searches → List Procinfo → List Requirement → Type 0
AllMet re lost [] = Unit
AllMet re lost (r ∷ rs) = IsMet r (losses re r.regexp lost) × AllMet re lost rs

module _ (re : Searches) (lost : List Procinfo) (p : Procinfo) where
  dec-IsMet :
      (r : Requirement) (n : ℕ)
      → IsMet r n
      → is_less (dec r.current_count) r.minimum_count ≡ false
      → IsMet (record r { current_count = dec r.current_count }) (1 + n)
  unfolding dec is_less
  dec-IsMet r n met e = step met.left met.current met.counted
    where
      step :
          (left : ℕ)
          → r.current_count ≡ pos left
          → left + n ≡ r.original_count
          → IsMet (record r { current_count = dec r.current_count }) (1 + n)
      step zero at h = absurd (cc (rw at at e))
      step (suc k) at h = record {
        left = k;
        current = rw at;
        counted = omega arith;
        enough = ground (arith, rw at at e);
      }

  pub count_down-AllMet :
      (rs : List Requirement)
      → (count_down re p.label rs).2 ≡ none
      → AllMet re lost rs
      → AllMet re (p ∷ lost) (count_down re p.label rs).0
  unfolding count_down
  count_down-AllMet [] e met = tt
  count_down-AllMet (r ∷ rs) e met = elim (Bool-cases (re.search r.regexp p.label)) [
    | inl hit ↦ elim (Bool-cases (is_less (dec r.current_count) r.minimum_count)) [
      | inl less ↦ absurd (cc (rw (hit, less) at e))
      | inr enough ↦
          let n = losses re r.regexp lost in
          rw (hit, enough)
            (
              rw hit (dec-IsMet r n met.0 enough),
              count_down-AllMet rs (rw (hit, enough) at e) met.1,
            )
    ]
    | inr miss ↦
        let same : IsMet r (0 + losses re r.regexp lost) = record {
          left = met.0.left;
          current = met.0.current;
          counted = omega (arith, met.0.counted);
          enough = met.0.enough;
        } in
        rw miss (rw miss same, count_down-AllMet rs (rw miss at e) met.1)
  ]

-- The new requirements, where the loss is tolerated.
abbrev pub keep : List Requirement × Loss → Option (List Requirement)
keep (reqs, tolerated) = some reqs
keep (reqs, violates_rule regexp) = none
keep (reqs, violates_default description) = none

-- Losing the processes of a list one after the other, the last of the list first; none stands for an
-- exception on the way. `remaining` are the processes that are left at each loss.
abbrev pub lose_all :
    Searches
    → (Procinfo → List Procinfo)
    → List Procinfo
    → List Requirement
    → Option (List Requirement)
lose_all re remaining [] reqs = some reqs
lose_all re remaining (p ∷ ps) reqs = elim (lose_all re remaining ps reqs) [
  | none ↦ none
  | some reqs' ↦ keep (lose_process re (remaining p) p reqs')
]

module _ (re : Searches) (p : Procinfo) where
  pub keep-count_down :
      (procinfos : List Procinfo) (reqs reqs' : List Requirement)
      → keep (lose_process re procinfos p reqs) ≡ some reqs'
      → ((count_down re p.label reqs).2 ≡ none) × ((count_down re p.label reqs).0 ≡ reqs')
  unfolding lose_process
  keep-count_down procinfos reqs reqs' e = inspect (count_down re p.label reqs) e
    where
      inspect :
          (x : List Requirement × Bool × Option String)
          → keep (judge re procinfos p x) ≡ some reqs'
          → (x.2 ≡ none) × (x.0 ≡ reqs')
      inspect (a, matched, some regexp) e = cc
      inspect (a, true, none) e = (refl, cc)
      inspect (a, false, none) e = (refl, by_default (loss_by_default re procinfos p) e)
        where
          by_default : (l : Loss) → keep (a, l) ≡ some reqs' → a ≡ reqs'
          by_default tolerated e = cc
          by_default (violates_rule x) e = cc
          by_default (violates_default x) e = cc

-- While losses are tolerated, each requirement counts exactly the matching processes that are left of
-- those at the start, and they are at least the minimum.
pub lose_all-AllMet :
    (re : Searches) (remaining : Procinfo → List Procinfo) (lost : List Procinfo)
    (reqs reqs' : List Requirement)
    → AllMet re [] reqs
    → lose_all re remaining lost reqs ≡ some reqs'
    → AllMet re lost reqs'
lose_all-AllMet re remaining [] reqs reqs' met e = let same : reqs ≡ reqs' = cc in rw (← same) met
lose_all-AllMet re remaining (p ∷ ps) reqs reqs' met e =
    let (before, earlier, now) = split (lose_all re remaining ps reqs) refl e in
    let (none_violated, same) = keep-count_down re p (remaining p) before reqs' now in
    rw (← same) (
      count_down-AllMet re ps p before none_violated
        (lose_all-AllMet re remaining ps reqs before met earlier))
  where
    split :
        (o : Option (List Requirement)) {x : Option (List Requirement)}
        → x ≡ o
        → elim o [ none ↦ none | some r ↦ keep (lose_process re (remaining p) p r) ] ≡ some reqs'
        → (r : List Requirement) × (x ≡ some r)
          × (keep (lose_process re (remaining p) p r) ≡ some reqs')
    split none h e = cc
    split (some r) h e = (r, h, e)

-- No rule matches the label.
abbrev pub matches_none : Searches → String → List Requirement → Bool
matches_none re label [] = true
matches_none re label (r ∷ rs) =
    if re.search r.regexp label then false else matches_none re label rs

module _ (re : Searches) (procinfos : List Procinfo) (p : Procinfo) where
  count_down_unmatched :
      (reqs : List Requirement)
      → matches_none re p.label reqs ≡ true
      → count_down re p.label reqs ≡ (reqs, false, none)
  unfolding count_down
  count_down_unmatched [] h = refl
  count_down_unmatched (r ∷ rs) h = elim (Bool-cases (re.search r.regexp p.label)) [
    | inl hit ↦ absurd (cc (rw hit at h))
    | inr miss ↦ rw (miss, count_down_unmatched rs (rw miss at h)) refl
  ]

  default_loss :
      is_boardreader p || fhicl_writes_root_file re p.fhicl_used ≡ true
      → loss_by_default re procinfos p ≢ tolerated
  unfolding loss_by_default process_description
  default_loss essential e = elim (Bool-cases (is_boardreader p)) [
    | inl reads ↦ cc (rw reads at e)
    | inr other ↦
        let writes : fhicl_writes_root_file re p.fhicl_used ≡ true = rw other at essential in
        cc (rw (other, writes) at e)
  ]

  -- The loss of a boardreader, or of a process that writes to disk, for which there is no rule ends
  -- the run, whatever else is running.
  pub essential_loss_ends :
      (reqs : List Requirement)
      → is_boardreader p || fhicl_writes_root_file re p.fhicl_used ≡ true
      → matches_none re p.label reqs ≡ true
      → (lose_process re procinfos p reqs).1 ≢ tolerated
  unfolding lose_process
  essential_loss_ends reqs essential unmatched e =
      default_loss essential
        (sym (ap (λ x. (judge re procinfos p x).1) (count_down_unmatched reqs unmatched)) ∙ e)
