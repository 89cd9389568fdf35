-- ===== src/Processes/Priorities.antt =====
-- rc/control/daqinterface.py, `readjust_process_priorities`: which priorities are set.
use artdaq_daqinterface.Prelude.{
  ℕ, zero, suc, ◌+◌, String, ◌≡◌, inl, inr, Bool, true, false, Option, none, some, List, [], ◌∷◌,
  Bool-cases, Option-cases, arith,
}
use artdaq_daqinterface.Procinfo.{Procinfo, is_boardreader}
use artdaq_daqinterface.Processes.{priority_ranking, readjust_process_priorities}

module _ (search : String → String → Bool) where
  -- The expression at a position is the first that matches.
  abbrev pub IsFirstMatch : ℕ → List String → String → Type 0
  IsFirstMatch n [] label = Path ℕ 0 1
  IsFirstMatch zero (regexp ∷ rest) label = search regexp label ≡ true
  IsFirstMatch (suc n) (regexp ∷ rest) label =
      (search regexp label ≡ false) × IsFirstMatch n rest label

  abbrev pub NoMatch : List String → String → Type 0
  NoMatch [] label = Unit
  NoMatch (regexp ∷ rest) label = (search regexp label ≡ false) × NoMatch rest label

  priority_ranking-some :
      (k : ℕ) (l : List String) (label : String) (n : ℕ)
      → priority_ranking search k l label ≡ some n
      → (i : ℕ) × (n ≡ k + i) × IsFirstMatch i l label
  unfolding priority_ranking
  priority_ranking-some k [] label n h = cc
  priority_ranking-some k (regexp ∷ rest) label n h = elim (Bool-cases (search regexp label)) [
    | inl hit ↦
        let same : some k ≡ some n = rw hit at h in let e : k ≡ n = cc in (0, omega (arith, e), hit)
    | inr miss ↦
        let (i, e, first) = priority_ranking-some (suc k) rest label n (rw miss at h) in
        (suc i, omega (arith, e), (miss, first))
  ]

  priority_ranking-none :
      (k : ℕ) (l : List String) (label : String)
      → priority_ranking search k l label ≡ none
      → NoMatch l label
  unfolding priority_ranking
  priority_ranking-none k [] label h = tt
  priority_ranking-none k (regexp ∷ rest) label h = elim (Bool-cases (search regexp label)) [
    | inl hit ↦ absurd (cc (rw hit at h))
    | inr miss ↦ (miss, priority_ranking-none (suc k) rest label (rw miss at h))
  ]

  module _ (priority_list : List String) where
    -- A boardreader gets the position of the first expression that matches its label; the other
    -- processes stay.
    pub data IsPrioritized : Procinfo → Procinfo → Type 0 where
      reader :
          (p : Procinfo) (n : ℕ)
          → is_boardreader p ≡ true
          → IsFirstMatch n priority_list p.label
          → IsPrioritized p (record p { priority = n })
      other : (p : Procinfo) → is_boardreader p ≡ false → IsPrioritized p p

    pub data AllPrioritized : List Procinfo → List Procinfo → Type 0 where
      none_left : AllPrioritized [] []
      one_more :
          (p p' : Procinfo) (ps ps' : List Procinfo)
          → IsPrioritized p p'
          → AllPrioritized ps ps'
          → AllPrioritized (p ∷ ps) (p' ∷ ps')

    -- The label of the exception is that of a boardreader that no expression matches.
    pub data Judged : List Procinfo → List Procinfo × Option String → Type 0 where
      prioritized : (ps ps' : List Procinfo) → AllPrioritized ps ps' → Judged ps (ps', none)
      unmatched :
          (ps ps' : List Procinfo) (label : String)
          → NoMatch priority_list label
          → Judged ps (ps', some label)

    add_first :
        (p p' : Procinfo) (ps : List Procinfo) (r : List Procinfo × Option String)
        → IsPrioritized p p'
        → Judged ps r
        → Judged (p ∷ ps) (p' ∷ r.0, r.1)
    add_first p p' ps _ first (prioritized _ ps' rest) =
        prioritized (p ∷ ps) (p' ∷ ps') (one_more p p' ps ps' first rest)
    add_first p p' ps _ first (unmatched _ ps' label h) = unmatched (p ∷ ps) (p' ∷ ps') label h

    -- With a list of expressions, either each boardreader gets the position of the first one that
    -- matches its label and the other processes stay, or the exception names a label that none
    -- matches.
    pub readjust_process_priorities-Judged :
        (ps : List Procinfo)
        → Judged ps (readjust_process_priorities search (some priority_list) ps)
    unfolding readjust_process_priorities
    readjust_process_priorities-Judged [] = prioritized [] [] none_left
    readjust_process_priorities-Judged (p ∷ ps) =
        let rest = readjust_process_priorities-Judged ps in
        elim (Bool-cases (is_boardreader p)) [
          | inr away ↦ rw away (add_first p p ps _ (other p away) rest)
          | inl reads ↦ elim (Option-cases (priority_ranking search 0 priority_list p.label)) [
            | inl missing ↦
                rw (reads, missing)
                  (unmatched (p ∷ ps) (p ∷ ps) p.label
                    (priority_ranking-none 0 priority_list p.label missing))
            | inr (n, found) ↦
                let (i, e, first) = priority_ranking-some 0 priority_list p.label n found in
                let same : i ≡ n = omega (arith, e) in
                rw (reads, found)
                  (add_first p (record p { priority = n }) ps _
                    (reader p n reads (rw same at first)) rest)
          ]
        ]
