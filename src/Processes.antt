-- ===== src/Processes.antt =====
-- rc/control/daqinterface.py: the order of processes, and their ranks and priorities.
pub mod Order
pub mod Ranks
pub mod Priorities
mod Tests
use artdaq_daqinterface.Prelude.{
  ℕ, zero, suc, String, ◌=ₛ◌, Bool, true, false, not, ◌||◌, Option, none, some, List, [], ◌∷◌, ltb,
  if◌then◌else◌,
}
use artdaq_daqinterface.Procinfo.{Procinfo, is_boardreader}

abbrev pub processes_upstream_to_downstream : List String
processes_upstream_to_downstream =
    "BoardReader" ∷ "EventBuilder" ∷ "DataLogger" ∷ "Dispatcher" ∷ "RoutingManager" ∷ []

abbrev pub one_later : Option ℕ → Option ℕ
one_later none = none
one_later (some n) = some (suc n)

-- `names.index(name)`, with none for Python's ValueError.
unfoldable pub index : String → List String → Option ℕ
index name [] = none
index name (x ∷ xs) = let later = index name xs in if x =ₛ name then some 0 else one_later later

abbrev pub both_less : Option ℕ → Option ℕ → Option Bool
both_less (some a) (some b) = some (ltb a b)
both_less _ _ = none

-- `__lt__`; none is a ValueError.
unfoldable pub is_upstream : Procinfo → Procinfo → Option Bool
unfolding index
is_upstream p q =
    if not (p.name =ₛ q.name)
    then both_less (index p.name processes_upstream_to_downstream)
        (index q.name processes_upstream_to_downstream)
    else some (ltb p.port_number q.port_number)

-- A line of the ranks file that has the form asked for.
pub record RankLine : Type 0 where
  pub host : String
  pub port : String
  pub label : String
  pub rank : ℕ

-- `no_process` and `mismatch` are the two exceptions.
pub data Ranked : Type 0 where
  ranked : List Procinfo → Ranked
  no_process : String → Ranked
  mismatch : String → Ranked

-- The inner loop: the processes after it and whether one matched, or the label of a mismatch.
pub data Matched : Type 0 where
  matched : List Procinfo → Bool → Matched
  differs : String → Matched

abbrev pub matched_first : Procinfo → Bool → Matched → Matched
matched_first p here (matched ps later) = matched (p ∷ ps) (here || later)
matched_first p here (differs label) = differs label

unfoldable pub set_rank : RankLine → List Procinfo → Matched
set_rank line [] = matched [] false
set_rank line (p ∷ ps) =
    let rest = set_rank line ps in
    if p.label =ₛ line.label
    then (if not (line.host =ₛ p.host) || not (line.port =ₛ p.port)
        then differs p.label
        else matched_first (record p { rank = line.rank }) true rest)
    else matched_first p false rest

abbrev pub then_ranked : RankLine → (List Procinfo → Ranked) → Matched → Ranked
then_ranked line rest (matched ps true) = rest ps
then_ranked line rest (matched ps false) = no_process line.label
then_ranked line rest (differs label) = mismatch label

-- The loop over the lines of the file that have the form asked for.
unfoldable pub add_ranks_from_ranksfile : List RankLine → List Procinfo → Ranked
unfolding set_rank
add_ranks_from_ranksfile [] ps = ranked ps
add_ranks_from_ranksfile (line ∷ lines) ps =
    then_ranked line (add_ranks_from_ranksfile lines) (set_rank line ps)

-- `search regexp label` stands for `re.search(regexp, label)`.
module _ (search : String → String → Bool) where
  -- The position, counted from `n`, of the first expression that matches.
  unfoldable pub priority_ranking : ℕ → List String → String → Option ℕ
  priority_ranking n [] label = none
  priority_ranking n (regexp ∷ rest) label =
      let later = priority_ranking (suc n) rest label in
      if search regexp label then some n else later

  abbrev pub ranking : Option (List String) → String → Option ℕ
  unfolding priority_ranking
  ranking none label = some 999
  ranking (some priority_list) label = priority_ranking 0 priority_list label

  -- The processes, or the label for which no expression matches; those before it have their new
  -- priorities.
  unfoldable pub readjust_process_priorities :
      Option (List String) → List Procinfo → List Procinfo × Option String
  unfolding ranking
  readjust_process_priorities priority_list [] = ([], none)
  readjust_process_priorities priority_list (p ∷ ps) =
      let (rest, fault) = readjust_process_priorities priority_list ps in
      if is_boardreader p
      then elim (ranking priority_list p.label) [
        | none ↦ (p ∷ ps, some p.label)
        | some n ↦ ((record p { priority = n }) ∷ rest, fault)
      ]
      else (p ∷ rest, fault)
