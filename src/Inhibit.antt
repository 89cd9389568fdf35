-- ===== src/Inhibit.antt =====
-- rc/InhibitManager/InhibitManager.py: the manager that says whether the front ends let data flow.
pub mod Agreement
mod Tests
use Prim.Native.String as Text
use text.Mathlib.Text.{starts_with}
use artdaq_daqinterface.Prelude.{
  String, ◌=ₛ◌, Bool, true, false, not, Option, none, some, List, [], ◌∷◌, ◌++◌, Dict, insert,
  if◌then◌else◌,
}

-- `msg.split("_")`; the first of the pieces takes the characters before it.
abbrev pub prepended : String → List String → List String
prepended c [] = c ∷ []
prepended c (piece ∷ pieces) = (Text.◌++◌ c piece) ∷ pieces

unfoldable pub split_text : String → List String
split_text Text.String.[] = "" ∷ []
split_text (Text.String.◌∷◌ c s) =
    let rest = split_text s in
    if starts_with (Text.String.◌∷◌ c s) "_"
    then "" ∷ rest
    else prepended (Text.String.◌∷◌ c Text.String.[]) rest

-- `msg_list[1]` and `msg_list[3]`; none where there is an IndexError.
unfoldable pub process_and_status : List String → Option (String × String)
process_and_status (marker ∷ process ∷ info ∷ status ∷ rest) = some (process, status)
process_and_status _ = none

pub record InhibitManager : Type 0 where
  pub frontend_dict : Dict String
  pub current_status : String

-- A message to the subscribers of the manager: the status and the details.
pub record Inhibit : Type 0 where
  pub status : String
  pub details : String

abbrev pub new_manager : InhibitManager
new_manager = record { frontend_dict = ("INHIBITMANAGER", "OK") ∷ []; current_status = "XON" }

-- The loop over the values.
unfoldable pub tmp_status : Dict String → String
tmp_status [] = "XON"
tmp_status (entry ∷ rest) = let later = tmp_status rest in if entry.1 =ₛ "OK" then later else "XOFF"

unfoldable pub update_status : InhibitManager → InhibitManager
unfolding tmp_status
update_status m = record m { current_status = tmp_status m.frontend_dict }

unfoldable pub note_status : String → String → InhibitManager → InhibitManager
unfolding insert update_status
note_status process status m =
    let m' : InhibitManager = record m { frontend_dict = insert process status m.frontend_dict } in
    let updated = update_status m' in if not (status =ₛ m'.current_status) then updated else m'

unfoldable pub register_status_msg : String → InhibitManager → Option InhibitManager
unfolding split_text process_and_status note_status
register_status_msg msg m = elim (process_and_status (split_text msg)) [
  | none ↦ none
  | some (process, status) ↦ some (note_status process status m)
]

-- The rest of a round, after the message: what is sent where the status is another than before, and
-- where the time of an update is over.
unfoldable pub sent : String → Bool → InhibitManager → List Inhibit
sent init_status is_due m =
    let update = record { status = m.current_status; details = "no change" } ∷ [] in
    let due = if is_due then update else [] in
    if not (m.current_status =ₛ init_status)
    then record { status = m.current_status; details = "global status change" } ∷ due
    else due

-- A round of `run`, with the message received and whether the time of an update is over.
unfoldable pub round : String → Bool → InhibitManager → Option (InhibitManager × List Inhibit)
unfolding register_status_msg sent
round msg is_due m =
    if msg =ₛ "TIMEOUT"
    then some (m, sent m.current_status is_due m)
    else elim (register_status_msg msg m) [
      | none ↦ none
      | some m' ↦ some (m', sent m.current_status is_due m')
    ]

-- The rounds of `run` for a sequence of messages.
unfoldable pub run : List (String × Bool) → InhibitManager → Option (InhibitManager × List Inhibit)
unfolding round
run [] m = some (m, [])
run ((msg, is_due) ∷ rest) m = elim (round msg is_due m) [
  | none ↦ none
  | some (m', first) ↦ elim (run rest m') [
    | none ↦ none
    | some (last, more) ↦ some (last, first ++ more)
  ]
]
