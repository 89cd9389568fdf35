-- ===== src/Requirements.antt =====
-- rc/control/daqinterface.py: the rules on which processes a run may lose
-- (`init_process_requirements` and `throw_exception_if_losing_process_violates_requirements`).
pub mod Counting
pub mod Rounding
mod Tests
use artdaq_daqinterface.Prelude.{
  ℕ, ◌+◌, ◌*◌, ◌/◌, ◌%◌, String, ◌=ₛ◌, Bool, true, false, ◌||◌, ◌&&◌, Option, none, some, List, [],
  ◌∷◌, ◌++◌, length, ltb, ◌==◌, if◌then◌else◌, ℤ, pos, dec, is_less, occurs, before_mark,
}
use artdaq_daqinterface.Procinfo.{Procinfo, is_boardreader, is_eventbuilder, is_routingmanager}

-- What the searches by regular expression answer: `re.search(regexp, label)`, the tests and the
-- three groups for a line of the requirements file, and the search for a ROOT file's name in FHiCL.
-- A fraction is given in millionths.
pub record Searches : Type 0 where
  pub search : String → String → Bool
  pub is_ignored : String → Bool
  pub rule : String → Option (String × ℕ × ℕ)
  pub names_root_file : String → Bool

-- The tuple (regexp, original count, minimum count, current count).
pub record Requirement : Type 0 where
  pub regexp : String
  pub original_count : ℕ
  pub minimum_count : ℕ
  pub current_count : ℤ

abbrev pub million : ℕ
million = 1000000

-- `int(round(x))` for x in millionths; Python rounds a half to the even neighbour.
unfoldable pub round_millionths : ℕ → ℕ
round_millionths x =
    let q = x / million in
    let r = x % million in
    if ltb r 500000 then q else (if ltb 500000 r then q + 1 else (if q % 2 == 0 then q else q + 1))

-- The line up to a `#`.
unfoldable pub without_comment : String → String
unfolding before_mark
without_comment line = before_mark "#" line

pub data Reading : Type 0 where
  read : List Requirement → Reading
  too_few : String → Reading
  malformed : String → Reading

module _ (re : Searches) (procinfos : List Procinfo) where
  unfoldable pub absolute_count : String → List Procinfo → ℕ
  absolute_count regexp [] = 0
  absolute_count regexp (p ∷ ps) =
      let rest = absolute_count regexp ps in if re.search regexp p.label then rest + 1 else rest

  unfoldable pub num_processes_required_by_fraction : String → ℕ → ℕ
  unfolding absolute_count round_millionths
  num_processes_required_by_fraction regexp fraction =
      round_millionths (absolute_count regexp procinfos * fraction + 499999)

  -- The requirement of a line, or none where more processes are required than there are.
  unfoldable pub make_requirement : String → ℕ → ℕ → Option Requirement
  unfolding num_processes_required_by_fraction
  make_requirement regexp fraction count =
      let by_fraction = num_processes_required_by_fraction regexp fraction in
      let strictest = if ltb count by_fraction then by_fraction else count in
      let starting = num_processes_required_by_fraction regexp million in
      if ltb starting strictest
      then none
      else some (record {
        regexp = regexp;
        original_count = starting;
        minimum_count = strictest;
        current_count = pos starting;
      })

  -- The loop over the lines of the file.
  unfoldable pub read_requirements : List String → List Requirement → Reading
  unfolding make_requirement without_comment
  read_requirements [] reqs = read reqs
  read_requirements (line ∷ lines) reqs =
      let skipped = read_requirements lines reqs in
      if re.is_ignored line then skipped else elim (re.rule (without_comment line)) [
        | none ↦ malformed (without_comment line)
        | some (regexp, fraction, count) ↦ elim (make_requirement regexp fraction count) [
          | none ↦ too_few (without_comment line)
          | some req ↦ read_requirements lines (reqs ++ req ∷ [])
        ]
      ]

-- Whether an exception is raised, and for which reason.
pub data Loss : Type 0 where
  tolerated : Loss
  violates_rule : String → Loss
  violates_default : String → Loss

module _ (re : Searches) where
  unfoldable pub fhicl_writes_root_file : String → Bool
  fhicl_writes_root_file fhicl =
      (occurs "RootOutput" fhicl || occurs "RootDAQOut" fhicl) && re.names_root_file fhicl

  -- The loop over the requirements: the new list, whether some rule matched, and the rule that is
  -- violated, where the loop is left.
  unfoldable pub count_down : String → List Requirement → List Requirement × Bool × Option String
  unfolding dec is_less
  count_down label [] = ([], false, none)
  count_down label (r ∷ rs) =
      let rest = count_down label rs in
      if re.search r.regexp label
      then (let r' : Requirement = record r { current_count = dec r.current_count } in
          if is_less r'.current_count r'.minimum_count
          then (r' ∷ rs, true, some r.regexp)
          else (r' ∷ rest.0, true, rest.2))
      else (r ∷ rest.0, rest.1, rest.2)

  unfoldable pub any_routingmanager : List Procinfo → Bool
  any_routingmanager [] = false
  any_routingmanager (p ∷ ps) = is_routingmanager p || any_routingmanager ps

  unfoldable pub eventbuilders : List Procinfo → List Procinfo
  eventbuilders [] = []
  eventbuilders (p ∷ ps) =
      let rest = eventbuilders ps in if is_eventbuilder p then p ∷ rest else rest

  unfoldable pub is_last : Procinfo → List Procinfo → Bool
  is_last p [] = true
  is_last p (q ∷ []) = p.label =ₛ q.label
  is_last p (q ∷ r ∷ rest) = false

  -- The default rule; the empty text stands for a process that may be lost.
  unfoldable pub process_description : List Procinfo → Procinfo → String
  unfolding fhicl_writes_root_file any_routingmanager eventbuilders is_last
  process_description procinfos p =
      if is_boardreader p
      then "BoardReader"
      else (if fhicl_writes_root_file p.fhicl_used
          then "process that writes data to disk"
          else (if is_eventbuilder p
              then (if any_routingmanager procinfos
                  then (if is_last p (eventbuilders procinfos)
                      then "final remaining EventBuilder"
                      else "")
                  else "EventBuilder in a run with no RoutingManager")
              else ""))

  unfoldable pub loss_by_default : List Procinfo → Procinfo → Loss
  unfolding process_description
  loss_by_default procinfos p =
      let description = process_description procinfos p in
      if description =ₛ "" then tolerated else violates_default description

  unfoldable pub judge :
      List Procinfo → Procinfo → List Requirement × Bool × Option String → List Requirement × Loss
  unfolding loss_by_default
  judge procinfos p (reqs, matched, some regexp) = (reqs, violates_rule regexp)
  judge procinfos p (reqs, matched, none) =
      (reqs, if matched then tolerated else loss_by_default procinfos p)

  -- `throw_exception_if_losing_process_violates_requirements`
  unfoldable pub lose_process :
      List Procinfo → Procinfo → List Requirement → List Requirement × Loss
  unfolding judge
  lose_process procinfos p reqs = judge procinfos p (count_down p.label reqs)
