-- ===== src/Wiring/Connections.antt =====
-- rc/control/bookkeeping.py: the choice of the senders and the receivers within one subsystem.
use artdaq_daqinterface.Prelude.{
  String, ◌=ₛ◌, ◌≡◌, refl, subst, Bool, true, false, List, [], ◌++◌, ◌⊎◌, inl, inr, ◌↔◌,
  if◌then◌else◌, if_cases, eq_iff, Memᴰ,
}
use mathlib.Core.List.Memᴰ
use artdaq_daqinterface.Procinfo.{Procinfo}
use artdaq_daqinterface.Wiring.{own_destinations, own_sources, sorted_by_rank}
use artdaq_daqinterface.Wiring.Members.{Mem-append, Mem-sorted_by_rank}

-- Which type of process feeds which within a subsystem; an eventbuilder feeds a dispatcher where
-- there is no datalogger.
pub data Feeds (has_dataloggers : Bool) (sender receiver : String) : Type 0 where
  readout :
      sender ≡ "BoardReader" → receiver ≡ "EventBuilder" → Feeds has_dataloggers sender receiver
  logging :
      sender ≡ "EventBuilder" → receiver ≡ "DataLogger" → Feeds has_dataloggers sender receiver
  direct :
      sender ≡ "EventBuilder"
      → receiver ≡ "Dispatcher"
      → has_dataloggers ≡ false
      → Feeds has_dataloggers sender receiver
  monitoring :
      sender ≡ "DataLogger" → receiver ≡ "Dispatcher" → Feeds has_dataloggers sender receiver

-- The members of a sorted list of two parts, the second one only without dataloggers.
Mem-either :
    {q : Procinfo} (has_dataloggers : Bool) (xs ys : List Procinfo)
    → Memᴰ q (sorted_by_rank (xs ++ (if has_dataloggers then [] else ys)))
      ↔ (Memᴰ q xs ⊎ ((has_dataloggers ≡ false) × Memᴰ q ys))
Mem-either {q = q} has_dataloggers xs ys =
    let part = if has_dataloggers then [] else ys in
    let both : Memᴰ q (xs ++ part) ↔ (Memᴰ q xs ⊎ Memᴰ q part) = Mem-append xs part in
    (
      λ m. elim (both.0 ((Mem-sorted_by_rank (xs ++ part)).0 m)) [
        | inl x ↦ inl x
        | inr y ↦ inr (out has_dataloggers y)
      ],
      λ o.
          (Mem-sorted_by_rank (xs ++ part)).1
            (both.1 (elim o [ inl x ↦ inl x | inr y ↦ inr (rw y.0 y.1) ])),
    )
  where
    out : (b : Bool) → Memᴰ q (if b then [] else ys) → (b ≡ false) × Memᴰ q ys
    out true m = absurd (Memᴰ.not-nil m)
    out false m = (refl, m)

module _ {q : Procinfo} (t : String) (has_dataloggers : Bool) (group : String → List Procinfo) where
  -- A receiver is in a group of a type that the sender feeds, and in no other.
  pub Mem-own_destinations :
      Memᴰ q (own_destinations t has_dataloggers group)
      ↔ ((r : String) × Feeds has_dataloggers t r × Memᴰ q (group r))
  unfolding own_destinations
  Mem-own_destinations =
      let Goal = (r : String) × Feeds has_dataloggers t r × Memᴰ q (group r) in
      let either = Mem-either {q = q} has_dataloggers (group "DataLogger") (group "Dispatcher") in
      (
        if_cases (λ ps. Memᴰ q ps → Goal) (t =ₛ "BoardReader")
            (λ h m. ("EventBuilder", Feeds.readout ((eq_iff t "BoardReader").0 h) refl, m))
            (λ b.
              if_cases (λ ps. Memᴰ q ps → Goal) (t =ₛ "EventBuilder")
                (λ h m. elim (either.0 m) [
                  | inl d ↦ ("DataLogger", Feeds.logging ((eq_iff t "EventBuilder").0 h) refl, d)
                  | inr d ↦
                      ("Dispatcher", Feeds.direct ((eq_iff t "EventBuilder").0 h) refl d.0, d.1)
                ])
                (λ e.
                  if_cases (λ ps. Memᴰ q ps → Goal) (t =ₛ "DataLogger")
                    (λ h m. ("Dispatcher", Feeds.monitoring ((eq_iff t "DataLogger").0 h) refl, m))
                    (λ d m. absurd (Memᴰ.not-nil m)))),
        λ g. elim g.1 [
          | Feeds.readout e r ↦ rw e (subst (λ u. Memᴰ q (group u)) r g.2)
          | Feeds.logging e r ↦ rw e (either.1 (inl (subst (λ u. Memᴰ q (group u)) r g.2)))
          | Feeds.direct e r none ↦
              rw e (either.1 (inr (none, subst (λ u. Memᴰ q (group u)) r g.2)))
          | Feeds.monitoring e r ↦ rw e (subst (λ u. Memᴰ q (group u)) r g.2)
        ],
      )

  -- A sender is in a group of a type that feeds the receiver, and in no other.
  pub Mem-own_sources :
      Memᴰ q (own_sources t has_dataloggers group)
      ↔ ((s : String) × Feeds has_dataloggers s t × Memᴰ q (group s))
  unfolding own_sources
  Mem-own_sources =
      let Goal = (s : String) × Feeds has_dataloggers s t × Memᴰ q (group s) in
      let either = Mem-either {q = q} has_dataloggers (group "DataLogger") (group "EventBuilder") in
      (
        if_cases (λ ps. Memᴰ q ps → Goal) (t =ₛ "EventBuilder")
            (λ h m. ("BoardReader", Feeds.readout refl ((eq_iff t "EventBuilder").0 h), m))
            (λ e.
              if_cases (λ ps. Memᴰ q ps → Goal) (t =ₛ "DataLogger")
                (λ h m. ("EventBuilder", Feeds.logging refl ((eq_iff t "DataLogger").0 h), m))
                (λ d.
                  if_cases (λ ps. Memᴰ q ps → Goal) (t =ₛ "Dispatcher")
                    (λ h m. elim (either.0 m) [
                      | inl l ↦
                          ("DataLogger", Feeds.monitoring refl ((eq_iff t "Dispatcher").0 h), l)
                      | inr e ↦
                          ("EventBuilder", Feeds.direct refl ((eq_iff t "Dispatcher").0 h) e.0, e.1)
                    ])
                    (λ n m. absurd (Memᴰ.not-nil m)))),
        λ g. elim g.1 [
          | Feeds.readout s e ↦ rw e (subst (λ u. Memᴰ q (group u)) s g.2)
          | Feeds.logging s e ↦ rw e (subst (λ u. Memᴰ q (group u)) s g.2)
          | Feeds.direct s e none ↦
              rw e (either.1 (inr (none, subst (λ u. Memᴰ q (group u)) s g.2)))
          | Feeds.monitoring s e ↦ rw e (either.1 (inl (subst (λ u. Memᴰ q (group u)) s g.2)))
        ],
      )
