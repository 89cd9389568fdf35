-- ===== src/Wiring/Receivers.antt =====
-- rc/control/bookkeeping.py: to which processes the destinations tables of a process lead.
use artdaq_daqinterface.Prelude.{
  String, ◌=ₛ◌, ◌≡◌, refl, sym, ap, subst, Bool, true, false, Option, none, some, List, [], ◌⊎◌,
  inl, inr, ◌↔◌, if_cases, Bool-absurd, and-true, ◌&&◌, eq_iff, Memᴰ, IsDistinct, lookup, keys, has,
}
use mathlib.Core.List.Memᴰ
use artdaq_daqinterface.Procinfo.{Procinfo}
use artdaq_daqinterface.Bookkeeping.Graph.{Subsystem}
use artdaq_daqinterface.Wiring.{
  Wiring, group_of, procinfos_by_ss_type, get_type_key, destination_ebs, own_destinations,
  inter_ss_eb_destinations, any_datalogger, procinfos_for_string, sources, destinations,
}
use artdaq_daqinterface.Wiring.Members.{Mem-sorted_by_rank, Mem-group}
use artdaq_daqinterface.Wiring.Connections.{Feeds, Mem-own_destinations}

-- Every process is in a subsystem with a text for its name, and the subsystems' names are distinct.
pub record IsNamed (w : Wiring) : Type 0 where
  pub distinct : IsDistinct (keys w.subsystems)
  pub nonempty : has "" w.subsystems ≡ false
  pub known : (p : Procinfo) → Memᴰ p w.procinfos → has p.subsystem w.subsystems ≡ true

-- The first process sends to the second: within a subsystem by their types, between subsystems as
-- eventbuilders where the second one's subsystem is the destination of the first one's.
pub data Connected (w : Wiring) (p q : Procinfo) : Type 0 where
  within :
      q.subsystem ≡ p.subsystem
      → Feeds (any_datalogger p.subsystem w.procinfos) (get_type_key p.name) (get_type_key q.name)
      → Connected w p q
  between :
      get_type_key p.name ≡ "EventBuilder"
      → get_type_key q.name ≡ "EventBuilder"
      → (s : Subsystem) → lookup p.subsystem w.subsystems ≡ some s
      → s.destination ≡ some q.subsystem
      → Connected w p q

-- The lists of receivers and senders, with the flag that `create_sources_or_destinations_string` uses.
abbrev pub receivers : Wiring → Bool → Procinfo → List Procinfo
receivers w inter p =
    procinfos_for_string w destinations inter (any_datalogger p.subsystem w.procinfos) p

abbrev pub senders : Wiring → Procinfo → List Procinfo
senders w q = procinfos_for_string w sources false (any_datalogger q.subsystem w.procinfos) q

own_receivers :
    (w : Wiring) (p : Procinfo)
    → receivers w false p
      ≡ own_destinations
          (get_type_key p.name)
          (any_datalogger p.subsystem w.procinfos)
          (λ t. group_of (p.subsystem, t) (procinfos_by_ss_type w))
unfolding procinfos_for_string
own_receivers w p =
    let own =
      own_destinations (get_type_key p.name) (any_datalogger p.subsystem w.procinfos)
        (λ t. group_of (p.subsystem, t) (procinfos_by_ss_type w)) in
    if_cases (λ ps. ps ≡ own) ((get_type_key p.name =ₛ "EventBuilder") && false)
      (λ h. absurd (Bool-absurd (and-true (get_type_key p.name =ₛ "EventBuilder") false h).1 refl))
      (λ h. refl)

-- The processes of its own subsystem that a process sends to are those that its type feeds.
Mem-own_receivers :
    {q : Procinfo} (w : Wiring) (p : Procinfo)
    → Memᴰ q (receivers w false p) ↔ (
        Memᴰ q w.procinfos
        × (q.subsystem ≡ p.subsystem)
        × Feeds
            (any_datalogger p.subsystem w.procinfos)
            (get_type_key p.name)
            (get_type_key q.name))
Mem-own_receivers {q} w p =
    let dl = any_datalogger p.subsystem w.procinfos in
    let t = get_type_key p.name in
    let own =
      Mem-own_destinations {q = q} t dl (λ u. group_of (p.subsystem, u) (procinfos_by_ss_type w)) in
    rw (own_receivers w p) (
      λ m.
          let (u, feeds, listed) = own.0 m in
          let (process, key) = (Mem-group w p.subsystem u).0 listed in
          (process, key.0, subst (Feeds dl t) (sym key.1) feeds),
      λ g. own.1 (
        get_type_key q.name,
        g.2,
        (Mem-group w p.subsystem (get_type_key q.name)).1 (g.0, (g.1, refl)),
      ),
    )

Mem-destination_ebs :
    {q : Procinfo} (w : Wiring) (destination : Option String)
    → Memᴰ q (destination_ebs destination (procinfos_by_ss_type w))
    → Memᴰ q w.procinfos × (destination ≡ some q.subsystem) × (get_type_key q.name ≡ "EventBuilder")
unfolding destination_ebs
Mem-destination_ebs w none m = absurd (Memᴰ.not-nil m)
Mem-destination_ebs {q} w (some dest) m =
    if_cases
      (λ ps.
        Memᴰ q ps
        → Memᴰ q w.procinfos
          × (some dest ≡ some q.subsystem)
          × (get_type_key q.name ≡ "EventBuilder"))
      (dest =ₛ "") (λ h n. absurd (Memᴰ.not-nil n))
      (λ h n.
        let (process, key) = (Mem-group w dest "EventBuilder").0 n in
        (process, ap (λ s. some s) (sym key.0), key.1))
      m

destination_ebs-Mem :
    {q : Procinfo} (w : Wiring)
    → has q.subsystem w.subsystems ≡ true
    → has "" w.subsystems ≡ false
    → Memᴰ q w.procinfos
    → get_type_key q.name ≡ "EventBuilder"
    → Memᴰ q (destination_ebs (some q.subsystem) (procinfos_by_ss_type w))
unfolding destination_ebs
destination_ebs-Mem {q} w known nonempty process builder =
    if_cases (λ ps. Memᴰ q ps) (q.subsystem =ₛ "")
      (λ h. absurd (
        Bool-absurd (subst (λ ss. has ss w.subsystems ≡ true) ((eq_iff q.subsystem "").0 h) known)
          nonempty))
      (λ h. (Mem-group w q.subsystem "EventBuilder").1 (process, (refl, builder)))

Mem-inter_ss_eb_destinations :
    {q : Procinfo} (w : Wiring) (ss : String)
    → Memᴰ q (inter_ss_eb_destinations w ss)
    → (s : Subsystem) × (lookup ss w.subsystems ≡ some s)
      × Memᴰ q (destination_ebs s.destination (procinfos_by_ss_type w))
unfolding inter_ss_eb_destinations
Mem-inter_ss_eb_destinations {q} w ss m = by_case (lookup ss w.subsystems) refl m
  where
    by_case :
        (o : Option Subsystem)
        → lookup ss w.subsystems ≡ o
        → Memᴰ q
            (elim o [ none ↦ [] | some s ↦ destination_ebs s.destination (procinfos_by_ss_type w) ])
        → (s : Subsystem) × (lookup ss w.subsystems ≡ some s)
          × Memᴰ q (destination_ebs s.destination (procinfos_by_ss_type w))
    by_case none e n = absurd (Memᴰ.not-nil n)
    by_case (some s) e n = (s, e, n)

inter_ss_eb_destinations-found :
    (w : Wiring) (ss : String) {dest : String} {s : Subsystem}
    → lookup ss w.subsystems ≡ some s
    → s.destination ≡ some dest
    → inter_ss_eb_destinations w ss ≡ destination_ebs (some dest) (procinfos_by_ss_type w)
unfolding inter_ss_eb_destinations
inter_ss_eb_destinations-found w ss found leads =
    rw (found, inter_ss_eb_destinations) (rw leads refl)

-- The destinations tables of a process, those within its subsystem and those between subsystems,
-- lead to the processes to which it is connected and to no other.
pub receivers-Connected :
    {q : Procinfo} (w : Wiring) (p : Procinfo)
    → IsNamed w
    → (Memᴰ q (receivers w false p) ⊎ Memᴰ q (receivers w true p))
      ↔ (Memᴰ q w.procinfos × Connected w p q)
unfolding procinfos_for_string inter_ss_eb_destinations
receivers-Connected {q} w p named =
    (λ o. elim o [ inl m ↦ own_out m | inr m ↦ inter_out m ], λ g. by_link g.0 g.1)
  where
    Goal : Type 0
    Goal = Memᴰ q w.procinfos × Connected w p q

    own_out : Memᴰ q (receivers w false p) → Goal
    own_out m =
        let (process, same, feeds) = (Mem-own_receivers w p).0 m in
        (process, Connected.within same feeds)

    inter_out : Memᴰ q (receivers w true p) → Goal
    inter_out m =
        if_cases (λ ps. Memᴰ q ps → Goal) ((get_type_key p.name =ₛ "EventBuilder") && true)
          (λ h n.
            let listed = (Mem-sorted_by_rank (inter_ss_eb_destinations w p.subsystem)).0 n in
            let (s, found, ebs) = Mem-inter_ss_eb_destinations w p.subsystem listed in
            let (process, leads, builder) = Mem-destination_ebs w s.destination ebs in
            let sender = (and-true (get_type_key p.name =ₛ "EventBuilder") true h).0 in
            (
              process,
              Connected.between ((eq_iff (get_type_key p.name) "EventBuilder").0 sender) builder s
                  found leads,
            ))
          (λ h n. absurd (Memᴰ.not-nil n)) m

    by_link :
        Memᴰ q w.procinfos
        → Connected w p q
        → Memᴰ q (receivers w false p) ⊎ Memᴰ q (receivers w true p)
    by_link process (Connected.within same feeds) =
        inl ((Mem-own_receivers w p).1 (process, same, feeds))
    by_link process (Connected.between sender builder s found leads) =
        let ebs = destination_ebs-Mem w (named.known q process) named.nonempty process builder in
        let ends = inter_ss_eb_destinations-found w p.subsystem found leads in
        inr (
          rw sender (
            (Mem-sorted_by_rank (inter_ss_eb_destinations w p.subsystem)).1
              (subst (λ ps. Memᴰ q ps) (sym ends) ebs)))
