-- ===== src/Wiring/Senders.antt =====
-- rc/control/bookkeeping.py: from which processes the sources table of a process leads.
use artdaq_daqinterface.Prelude.{
  String, ◌=ₛ◌, ◌≡◌, refl, sym, ap, subst, ◌∙◌, Bool, true, Option, none, some, List, [], ◌∷◌, ◌++◌,
  inl, inr, ◌↔◌, if◌then◌else◌, if_cases, if_both, Bool-absurd, eq_iff, Memᴰ, Dict, has, lookup-Mem,
  Mem-lookup,
}
use mathlib.Core.List.Memᴰ
use artdaq_daqinterface.Procinfo.{Procinfo}
use artdaq_daqinterface.Bookkeeping.Graph.{Subsystem}
use artdaq_daqinterface.Wiring.{
  Wiring, group_of, procinfos_by_ss_type, get_type_key, is_destination, own_sources, source_ebs,
  inter_ss_eb_sources, any_datalogger, procinfos_for_string,
}
use artdaq_daqinterface.Wiring.Members.{Mem-append, Mem-sorted_by_rank, Mem-group}
use artdaq_daqinterface.Wiring.Connections.{Feeds, Mem-own_sources}
use artdaq_daqinterface.Wiring.Receivers.{IsNamed, Connected, senders}

-- An eventbuilder in a subsystem that has `ss` for its destination.
abbrev Leads : Wiring → String → Dict Subsystem → Procinfo → Type 0
Leads w ss table p =
    (s : Subsystem) × Memᴰ (p.subsystem, s) table
    × (s.destination ≡ some ss)
    × Memᴰ p w.procinfos
    × (get_type_key p.name ≡ "EventBuilder")

is_destination-some :
    (ss : String) (destination : Option String)
    → (is_destination ss destination ≡ true) ↔ (destination ≡ some ss)
unfolding is_destination
is_destination-some ss none = (λ h. cc, λ e. cc)
is_destination-some ss (some dest) =
    (λ h. ap (λ s. some s) ((eq_iff dest ss).0 h), λ e. (eq_iff dest ss).1 (same e))
  where
    same : some dest ≡ some ss → dest ≡ ss
    same e = cc

Mem-source_ebs :
    {p : Procinfo} (w : Wiring) (ss : String) (table : Dict Subsystem)
    → Memᴰ p (source_ebs ss (procinfos_by_ss_type w) table)
    → Leads w ss table p
unfolding source_ebs
Mem-source_ebs w ss [] m = absurd (Memᴰ.not-nil m)
Mem-source_ebs {p} w ss ((other_ss, s) ∷ rest) m =
    let groups = procinfos_by_ss_type w in
    let part =
      if is_destination ss s.destination then group_of (other_ss, "EventBuilder") groups else [] in
    elim ((Mem-append part (source_ebs ss groups rest)).0 m) [
      | inl n ↦
          if_cases (λ ps. Memᴰ p ps → Leads w ss ((other_ss, s) ∷ rest) p)
            (is_destination ss s.destination)
            (λ h listed.
              let (process, key) = (Mem-group w other_ss "EventBuilder").0 listed in
              (
                s,
                Memᴰ.head (ap (λ o. (o, s)) key.0),
                (is_destination-some ss s.destination).0 h,
                process,
                key.1,
              ))
            (λ h listed. absurd (Memᴰ.not-nil listed)) n
      | inr n ↦ later (Mem-source_ebs w ss rest n)
    ]
  where
    later : Leads w ss rest p → Leads w ss ((other_ss, s) ∷ rest) p
    later (t, listed, leads, process, builder) = (t, Memᴰ.tail listed, leads, process, builder)

source_ebs-Mem :
    {p : Procinfo} (w : Wiring) (ss : String) (table : Dict Subsystem) {s : Subsystem}
    → Memᴰ (p.subsystem, s) table
    → s.destination ≡ some ss
    → Memᴰ p w.procinfos
    → get_type_key p.name ≡ "EventBuilder"
    → Memᴰ p (source_ebs ss (procinfos_by_ss_type w) table)
unfolding source_ebs
source_ebs-Mem w ss [] listed leads process builder = absurd (Memᴰ.not-nil listed)
source_ebs-Mem {p} w ss ((other_ss, t) ∷ rest) {s} (Memᴰ.head e) leads process builder =
    let groups = procinfos_by_ss_type w in
    let found : Memᴰ p (group_of (other_ss, "EventBuilder") groups) =
      (Mem-group w other_ss "EventBuilder").1 (process, (ap (λ x. x.0) e, builder)) in
    let leads_here : is_destination ss t.destination ≡ true =
      (is_destination-some ss t.destination).1 (ap (λ x. x.1.destination) (sym e) ∙ leads) in
    Memᴰ.append_left (source_ebs ss groups rest) (rw leads_here found)
source_ebs-Mem {p} w ss ((other_ss, t) ∷ rest) {s} (Memᴰ.tail m) leads process builder =
    Memᴰ.append_right
      (if is_destination ss t.destination
        then group_of (other_ss, "EventBuilder") (procinfos_by_ss_type w)
        else [])
      (source_ebs-Mem w ss rest m leads process builder)

-- The processes of its own subsystem from which a process is sent data are those that feed its type.
Mem-own_senders :
    {p : Procinfo} (w : Wiring) (q : Procinfo)
    → Memᴰ p (
        own_sources
          (get_type_key q.name)
          (any_datalogger q.subsystem w.procinfos)
          (λ t. group_of (q.subsystem, t) (procinfos_by_ss_type w)))
      ↔ (Memᴰ p w.procinfos
          × (p.subsystem ≡ q.subsystem)
          × Feeds
              (any_datalogger q.subsystem w.procinfos)
              (get_type_key p.name)
              (get_type_key q.name))
Mem-own_senders {p} w q =
    let dl = any_datalogger q.subsystem w.procinfos in
    let t = get_type_key q.name in
    let own =
      Mem-own_sources {q = p} t dl (λ u. group_of (q.subsystem, u) (procinfos_by_ss_type w)) in
    (
      λ m.
          let (u, feeds, listed) = own.0 m in
          let (process, key) = (Mem-group w q.subsystem u).0 listed in
          (process, key.0, subst (λ s. Feeds dl s t) (sym key.1) feeds),
      λ g. own.1 (
        get_type_key p.name,
        g.2,
        (Mem-group w q.subsystem (get_type_key p.name)).1 (g.0, (g.1, refl)),
      ),
    )

-- The eventbuilders of other subsystems from which a known subsystem is sent data.
Mem-inter_ss_eb_sources :
    {p : Procinfo} (w : Wiring) (ss : String)
    → has ss w.subsystems ≡ true
    → Memᴰ p (inter_ss_eb_sources w ss) ↔ Leads w ss w.subsystems p
unfolding inter_ss_eb_sources
Mem-inter_ss_eb_sources {p} w ss known =
    let all = source_ebs ss (procinfos_by_ss_type w) w.subsystems in
    rw known (
      λ m. Mem-source_ebs w ss w.subsystems ((Mem-sorted_by_rank all).0 m),
      λ g. (Mem-sorted_by_rank all).1 (source_ebs-Mem w ss w.subsystems g.1 g.2 g.3 g.4),
    )

-- The sources table of a process leads to the processes that are connected to it and to no other.
pub senders-Connected :
    {p : Procinfo} (w : Wiring) (q : Procinfo)
    → IsNamed w
    → Memᴰ q w.procinfos
    → Memᴰ p (senders w q) ↔ (Memᴰ p w.procinfos × Connected w p q)
unfolding procinfos_for_string
senders-Connected {p} w q named listed = (λ m. out m, λ g. by_link g.0 g.1)
  where
    dl : Bool
    dl = any_datalogger q.subsystem w.procinfos

    own : List Procinfo
    own =
        own_sources (get_type_key q.name) dl
          (λ t. group_of (q.subsystem, t) (procinfos_by_ss_type w))

    Goal : Type 0
    Goal = Memᴰ p w.procinfos × Connected w p q

    inter : Memᴰ p (inter_ss_eb_sources w q.subsystem) ↔ Leads w q.subsystem w.subsystems p
    inter = Mem-inter_ss_eb_sources w q.subsystem (named.known q listed)

    own_out : Memᴰ p own → Goal
    own_out m =
        let (process, same, feeds) = (Mem-own_senders w q).0 m in
        (
          process,
          Connected.within (sym same) (
              subst
                (λ ss.
                  Feeds (any_datalogger ss w.procinfos) (get_type_key p.name) (get_type_key q.name))
                (sym same) feeds),
        )

    inter_out :
        get_type_key q.name ≡ "EventBuilder" → Memᴰ p (inter_ss_eb_sources w q.subsystem) → Goal
    inter_out receiver m =
        let (s, entry, leads, process, builder) = inter.0 m in
        (
          process,
          Connected.between builder receiver s
              (Mem-lookup p.subsystem s w.subsystems named.distinct entry) leads,
        )

    out : Memᴰ p (senders w q) → Goal
    out m =
        if_cases (λ ps. Memᴰ p ps → Goal) (get_type_key q.name =ₛ "EventBuilder")
          (λ h n.
            elim ((Mem-append own (inter_ss_eb_sources w q.subsystem)).0
              ((Mem-sorted_by_rank (own ++ inter_ss_eb_sources w q.subsystem)).0 n)) [
                | inl x ↦ own_out x
                | inr x ↦ inter_out ((eq_iff (get_type_key q.name) "EventBuilder").0 h) x
              ])
          (λ h n. own_out n) m

    own_in : Memᴰ p own → Memᴰ p (senders w q)
    own_in m =
        if_both (λ ps. Memᴰ p ps) (get_type_key q.name =ₛ "EventBuilder")
          ((Mem-sorted_by_rank (own ++ inter_ss_eb_sources w q.subsystem)).1
            (Memᴰ.append_left (inter_ss_eb_sources w q.subsystem) m))
          m

    by_link : Memᴰ p w.procinfos → Connected w p q → Memᴰ p (senders w q)
    by_link process (Connected.within same feeds) = own_in (
        (Mem-own_senders w q).1 (
          process,
          sym same,
          subst
              (λ ss.
                Feeds (any_datalogger ss w.procinfos) (get_type_key p.name) (get_type_key q.name))
              (sym same) feeds,
        ))
    by_link process (Connected.between sender receiver s found leads) =
        if_cases (λ ps. Memᴰ p ps) (get_type_key q.name =ₛ "EventBuilder")
          (λ h. (Mem-sorted_by_rank (own ++ inter_ss_eb_sources w q.subsystem)).1 (
            Memᴰ.append_right own
              (inter.1 (s, lookup-Mem p.subsystem s w.subsystems found, leads, process, sender))))
          (λ h. absurd (Bool-absurd ((eq_iff (get_type_key q.name) "EventBuilder").1 receiver) h))
