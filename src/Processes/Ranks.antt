-- ===== src/Processes/Ranks.antt =====
-- rc/control/daqinterface.py, `add_ranks_from_ranksfile`: which ranks are set.
use artdaq_daqinterface.Prelude.{
  ◌=ₛ◌, ◌≡◌, refl, inl, inr, Bool, true, false, ◌||◌, List, [], ◌∷◌, Bool-cases,
}
use artdaq_daqinterface.Procinfo.{Procinfo}
use artdaq_daqinterface.Processes.{
  RankLine, Ranked, ranked, Matched, matched, differs, matched_first, set_rank, then_ranked,
  add_ranks_from_ranksfile,
}

-- A process with the label of the line is at its host and port, and gets its rank.
pub data IsSetBy (line : RankLine) : Procinfo → Procinfo → Type 0 where
  listed :
      (p : Procinfo)
      → (p.label =ₛ line.label) ≡ true
      → (line.host =ₛ p.host) ≡ true
      → (line.port =ₛ p.port) ≡ true
      → IsSetBy line p (record p { rank = line.rank })
  passed_over : (p : Procinfo) → (p.label =ₛ line.label) ≡ false → IsSetBy line p p

-- The flag says whether there is a process with the label.
pub data AllSetBy (line : RankLine) : List Procinfo → List Procinfo → Bool → Type 0 where
  nobody : AllSetBy line [] [] false
  hit :
      (p p' : Procinfo) (ps ps' : List Procinfo) (later : Bool)
      → (p.label =ₛ line.label) ≡ true
      → IsSetBy line p p'
      → AllSetBy line ps ps' later
      → AllSetBy line (p ∷ ps) (p' ∷ ps') true
  miss :
      (p p' : Procinfo) (ps ps' : List Procinfo) (later : Bool)
      → (p.label =ₛ line.label) ≡ false
      → IsSetBy line p p'
      → AllSetBy line ps ps' later
      → AllSetBy line (p ∷ ps) (p' ∷ ps') later

-- Line after line; each has a process with its label.
pub data SetByLines : List RankLine → List Procinfo → List Procinfo → Type 0 where
  no_line : (ps : List Procinfo) → SetByLines [] ps ps
  next_line :
      (line : RankLine) (lines : List RankLine) (ps between ps' : List Procinfo)
      → AllSetBy line ps between true
      → SetByLines lines between ps'
      → SetByLines (line ∷ lines) ps ps'

matched_first-matched :
    (p : Procinfo) (here : Bool) (m : Matched) (all : List Procinfo) (b : Bool)
    → matched_first p here m ≡ matched all b
    → (ps : List Procinfo) × (later : Bool) × (m ≡ matched ps later)
      × (all ≡ p ∷ ps)
      × (b ≡ here || later)
matched_first-matched p here (matched ps later) all b h =
    let e : all ≡ p ∷ ps = cc in let f : b ≡ here || later = cc in (ps, later, refl, e, f)
matched_first-matched p here (differs label) all b h = cc

module _ (line : RankLine) where
  set_rank-AllSetBy :
      (ps all : List Procinfo) (b : Bool)
      → set_rank line ps ≡ matched all b
      → AllSetBy line ps all b
  unfolding set_rank
  set_rank-AllSetBy [] all b h =
      let e : [] ≡ all = cc in let f : false ≡ b = cc in rw (← e, ← f) nobody
  set_rank-AllSetBy (p ∷ ps) all b h = elim (Bool-cases (p.label =ₛ line.label)) [
    | inr other ↦
        let (ps', later, e, f, g) =
          matched_first-matched p false (set_rank line ps) all b (rw other at h) in
        rw (f, g)
          (miss p p ps ps' later other (passed_over p other) (set_rank-AllSetBy ps ps' later e))
    | inl same ↦ elim (Bool-cases (line.host =ₛ p.host)) [
      | inr moved ↦ absurd (cc (rw (same, moved) at h))
      | inl host ↦ elim (Bool-cases (line.port =ₛ p.port)) [
        | inr moved ↦ absurd (cc (rw (same, host, moved) at h))
        | inl port ↦
            let p' : Procinfo = record p { rank = line.rank } in
            let (ps', later, e, f, g) =
              matched_first-matched p' true (set_rank line ps) all b (rw (same, host, port) at h) in
            rw (f, g)
              (hit p p' ps ps' later same (listed p same host port)
                (set_rank-AllSetBy ps ps' later e))
      ]
    ]
  ]

then_ranked-ranked :
    (line : RankLine) (rest : List Procinfo → Ranked) (m : Matched) (ps' : List Procinfo)
    → then_ranked line rest m ≡ ranked ps'
    → (between : List Procinfo) × (m ≡ matched between true) × (rest between ≡ ranked ps')
then_ranked-ranked line rest (matched ps true) ps' h = (ps, refl, h)
then_ranked-ranked line rest (matched ps false) ps' h = cc
then_ranked-ranked line rest (differs label) ps' h = cc

-- Where no exception is raised, the lines are gone through in order, each has a process with its
-- label, every process with the label is at the line's host and port and gets its rank, and nothing
-- else changes.
pub add_ranks-SetByLines :
    (lines : List RankLine) (ps ps' : List Procinfo)
    → add_ranks_from_ranksfile lines ps ≡ ranked ps'
    → SetByLines lines ps ps'
unfolding add_ranks_from_ranksfile
add_ranks-SetByLines [] ps ps' h = let e : ps ≡ ps' = cc in rw (← e) (no_line ps)
add_ranks-SetByLines (line ∷ lines) ps ps' h =
    let (between, e, later) =
      then_ranked-ranked line (add_ranks_from_ranksfile lines) (set_rank line ps) ps' h in
    next_line line lines ps between ps' (set_rank-AllSetBy line ps between true e)
      (add_ranks-SetByLines lines between ps' later)
