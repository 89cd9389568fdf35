-- ===== src/Inhibit/Agreement.antt =====
-- rc/InhibitManager/InhibitManager.py: the status agrees with the front ends.
use artdaq_daqinterface.Prelude.{
  String, ◌=ₛ◌ as ◌==◌, ◌≡◌, ◌≢◌, refl, sym, ◌∙◌, ◌⊎◌, inl, inr, Bool, true, false, some, List, [],
  ◌∷◌, ◌++◌, Dict, insert, Bool-cases, eq_iff,
}
use artdaq_daqinterface.Inhibit.{
  InhibitManager, Inhibit, tmp_status, update_status, note_status, process_and_status, split_text,
  register_status_msg, sent, round, run,
}

-- All front ends are OK, or some is not.
abbrev pub AllOk : Dict String → Type 0
AllOk [] = Unit
AllOk (entry ∷ rest) = (entry.1 ≡ "OK") × AllOk rest

abbrev pub SomeNotOk : Dict String → Type 0
SomeNotOk [] = ⊥
SomeNotOk (entry ∷ rest) = (entry.1 ≢ "OK") ⊎ SomeNotOk rest

-- The status is "XON" where all front ends are OK, and "XOFF" where some is not.
abbrev pub Agrees : InhibitManager → Type 0
Agrees m =
    ((m.current_status ≡ "XON") × AllOk m.frontend_dict)
    ⊎ ((m.current_status ≡ "XOFF") × SomeNotOk m.frontend_dict)

-- The status is the one of the loop over the front ends.
abbrev Follows : InhibitManager → Type 0
Follows m = m.current_status ≡ tmp_status m.frontend_dict

tmp_status-AllOk : (d : Dict String) → AllOk d → tmp_status d ≡ "XON"
unfolding tmp_status
tmp_status-AllOk [] all = refl
tmp_status-AllOk (entry ∷ rest) all =
    rw ((eq_iff entry.1 "OK").1 all.0) (tmp_status-AllOk rest all.1)

tmp_status-SomeNotOk : (d : Dict String) → SomeNotOk d → tmp_status d ≡ "XOFF"
unfolding tmp_status
tmp_status-SomeNotOk [] some_bad = absurd some_bad
tmp_status-SomeNotOk (entry ∷ rest) some_bad = elim (Bool-cases (entry.1 == "OK")) [
  | inr bad ↦ rw bad refl
  | inl fine ↦ rw fine (elim some_bad [
    | inl here ↦ absurd (here ((eq_iff entry.1 "OK").0 fine))
    | inr later ↦ tmp_status-SomeNotOk rest later
  ])
]

-- What the loop's status says of the front ends.
tmp_status-says :
    (d : Dict String) → ((tmp_status d ≡ "XON") × AllOk d) ⊎ ((tmp_status d ≡ "XOFF") × SomeNotOk d)
unfolding tmp_status
tmp_status-says [] = inl (refl, tt)
tmp_status-says (entry ∷ rest) = elim (Bool-cases (entry.1 == "OK")) [
  | inl fine ↦ rw fine (elim (tmp_status-says rest) [
    | inl (on, all) ↦ inl (on, ((eq_iff entry.1 "OK").0 fine, all))
    | inr (off, bad) ↦ inr (off, inr bad)
  ])
  | inr bad ↦ rw bad (inr (refl, inl (differing entry.1 bad)))
]
  where
    differing : (v : String) → (v == "OK") ≡ false → v ≢ "OK"
    differing v bad e = absurd (cc ((eq_iff v "OK").1 e))

Follows-Agrees : (m : InhibitManager) → Follows m → Agrees m
Follows-Agrees m e = elim (tmp_status-says m.frontend_dict) [
  | inl (on, all) ↦ inl (e ∙ on, all)
  | inr (off, bad) ↦ inr (e ∙ off, bad)
]

Agrees-Follows : (m : InhibitManager) → Agrees m → Follows m
Agrees-Follows m (inl (on, all)) = on ∙ sym (tmp_status-AllOk m.frontend_dict all)
Agrees-Follows m (inr (off, bad)) = off ∙ sym (tmp_status-SomeNotOk m.frontend_dict bad)

tmp_status-cases : (d : Dict String) → (tmp_status d ≡ "XON") ⊎ (tmp_status d ≡ "XOFF")
unfolding tmp_status
tmp_status-cases [] = inl refl
tmp_status-cases (entry ∷ rest) = elim (Bool-cases (entry.1 == "OK")) [
  | inl fine ↦ rw fine (tmp_status-cases rest)
  | inr bad ↦ rw bad (inr refl)
]

tmp_status-insert :
    (k v : String) (d : Dict String) → (v == "OK") ≡ false → tmp_status (insert k v d) ≡ "XOFF"
unfolding tmp_status insert
tmp_status-insert k v [] bad = rw bad refl
tmp_status-insert k v (entry ∷ rest) bad = elim (Bool-cases (entry.0 == k)) [
  | inl here ↦ rw (here, bad) refl
  | inr there ↦ elim (Bool-cases (entry.1 == "OK")) [
    | inl fine ↦ rw (there, fine) (tmp_status-insert k v rest bad)
    | inr off ↦ rw (there, off) refl
  ]
]

note_status-Follows :
    (process status : String) (m : InhibitManager)
    → status ≢ "XON"
    → Follows m
    → Follows (note_status process status m)
unfolding note_status update_status
note_status-Follows process status m other agrees = elim (Bool-cases (status == m.current_status)) [
  | inr differs ↦ rw differs refl
  | inl same ↦
      let e : status ≡ m.current_status = (eq_iff status m.current_status).0 same in
      rw same (settled e (tmp_status-cases m.frontend_dict))
]
  where
    settled :
        status ≡ m.current_status
        → (tmp_status m.frontend_dict ≡ "XON") ⊎ (tmp_status m.frontend_dict ≡ "XOFF")
        → m.current_status ≡ tmp_status (insert process status m.frontend_dict)
    settled e (inl on) = absurd (other (e ∙ agrees ∙ on))
    settled e (inr off) =
        let at_xoff : status ≡ "XOFF" = e ∙ agrees ∙ off in
        agrees ∙ off ∙ sym (tmp_status-insert process status m.frontend_dict (rw at_xoff refl))

note_status-Agrees :
    (process status : String) (m : InhibitManager)
    → status ≢ "XON"
    → Agrees m
    → Agrees (note_status process status m)
note_status-Agrees process status m other agrees =
    Follows-Agrees (note_status process status m)
      (note_status-Follows process status m other (Agrees-Follows m agrees))

-- A message has a process and a status, and the status is not "XON"; or the wait timed out.
pub record IsProper (msg : String) : Type 0 where
  pub process : String
  pub status : String
  pub read : process_and_status (split_text msg) ≡ some (process, status)
  pub not_on : status ≢ "XON"

abbrev pub AllProper : List (String × Bool) → Type 0
AllProper [] = Unit
AllProper ((msg, is_due) ∷ rest) = (((msg == "TIMEOUT") ≡ true) ⊎ IsProper msg) × AllProper rest

-- Where the manager gets to, and what it sends.
pub record Ends (rounds : List (String × Bool)) (m : InhibitManager) : Type 0 where
  pub last : InhibitManager
  pub messages : List Inhibit
  pub outcome : run rounds m ≡ some (last, messages)
  pub agrees : Agrees last

record Passed (msg : String) (is_due : Bool) (m : InhibitManager) : Type 0 where
  next : InhibitManager
  first : List Inhibit
  passed : round msg is_due m ≡ some (next, first)
  agreed : Agrees next

round-Passed :
    (msg : String) (is_due : Bool) (m : InhibitManager)
    → ((msg == "TIMEOUT") ≡ true) ⊎ IsProper msg
    → Agrees m
    → Passed msg is_due m
unfolding round register_status_msg
round-Passed msg is_due m proper agrees = elim (Bool-cases (msg == "TIMEOUT")) [
  | inl timeout ↦ record {
    next = m;
    first = sent m.current_status is_due m;
    passed = rw timeout refl;
    agreed = agrees;
  }
  | inr message ↦ elim proper [
    | inl timeout ↦ absurd (cc)
    | inr p ↦ record {
      next = note_status p.process p.status m;
      first = sent m.current_status is_due (note_status p.process p.status m);
      passed = rw (message, p.read) refl;
      agreed = note_status-Agrees p.process p.status m p.not_on agrees;
    }
  ]
]

-- From a manager whose status agrees with the front ends ("XON" where all are OK, "XOFF" where some is
-- not), any sequence of messages that are well formed and do not name the status "XON" is taken in, and
-- the status then agrees again.
pub run-Agrees :
    (rounds : List (String × Bool)) (m : InhibitManager)
    → AllProper rounds
    → Agrees m
    → Ends rounds m
unfolding run
run-Agrees [] m proper agrees = record { last = m; messages = []; outcome = refl; agrees = agrees }
run-Agrees ((msg, is_due) ∷ rest) m proper agrees =
    let r = round-Passed msg is_due m proper.0 agrees in
    let later = run-Agrees rest r.next proper.1 r.agreed in
    record {
      last = later.last;
      messages = r.first ++ later.messages;
      outcome = rw (r.passed, later.outcome, run) refl;
      agrees = later.agrees;
    }
