-- ===== src/Wiring/Ends.antt =====
-- rc/control/bookkeeping.py: the entries at the two ends of a connection.
use artdaq_daqinterface.Prelude.{
  ℕ, ◌≡◌, sym, subst, ◌∙◌, ◌⊎◌, inl, inr, Bool, true, false, some, List, Memᴰ, lookup,
}
use artdaq_daqinterface.Procinfo.{Procinfo}
use artdaq_daqinterface.Bookkeeping.Errors.{ok}
use artdaq_daqinterface.Wiring.{Wiring, sources, destinations, any_datalogger, get_type_key}
use artdaq_daqinterface.Wiring.Nodes.{Node, create_sources_or_destinations}
use artdaq_daqinterface.Wiring.Connections.{Feeds}
use artdaq_daqinterface.Wiring.Receivers.{IsNamed, Connected, receivers, receivers-Connected}
use artdaq_daqinterface.Wiring.Senders.{senders-Connected}
use artdaq_daqinterface.Wiring.Parameters.{Joined, transfer_to_use_agrees, end_size_agrees}
use artdaq_daqinterface.Wiring.Entries.{create_sources_or_destinations-Mem}

-- The process's name is its type, as it is with the five types of a boot file.
abbrev pub IsPlain : Procinfo → Type 0
IsPlain p = get_type_key p.name ≡ p.name

Connected-Joined :
    (w : Wiring) (p q : Procinfo)
    → IsPlain p
    → IsPlain q
    → Connected w p q
    → Joined (any_datalogger p.subsystem w.procinfos) p q
Connected-Joined w p q plain_p plain_q (Connected.within same feeds) =
    let dl = any_datalogger p.subsystem w.procinfos in
    Joined.within same (
      subst (λ s. Feeds dl s q.name) plain_p
        (subst (λ r. Feeds dl (get_type_key p.name) r) plain_q feeds))
Connected-Joined w p q plain_p plain_q (Connected.between sender receiver s found leads) =
    Joined.between (sym plain_p ∙ sender) (sym plain_q ∙ receiver)

-- With advanced memory usage, where a destinations table of one process names another process and
-- the two's tables are made with the event sizes of their subsystems, the sources table of the other
-- has an entry with the rank of the first, the same transfer plugin and the same size.
pub entries_agree :
    (w : Wiring) (p q : Procinfo) (inter : Bool) (m n : ℕ) (to from : List Node)
    → IsNamed w
    → IsPlain p
    → IsPlain q
    → w.advanced_memory_usage ≡ true
    → lookup p.subsystem w.max_event_sizes ≡ some m
    → lookup q.subsystem w.max_event_sizes ≡ some n
    → Memᴰ p w.procinfos
    → Memᴰ q (receivers w inter p)
    → create_sources_or_destinations w p destinations m inter ≡ ok to
    → create_sources_or_destinations w q sources n false ≡ ok from
    → (t : Node) × (f : Node) × Memᴰ t to
      × Memᴰ f from
      × (t.rank ≡ q.rank)
      × (f.rank ≡ p.rank)
      × (t.transfer ≡ f.transfer)
      × (t.max_fragment_size_words ≡ f.max_fragment_size_words)
entries_agree w p q inter m n to from named plain_p plain_q advanced size_p size_q sender receiver
      made_to made_from =
    let (process, link) = (receivers-Connected {q = q} w p named).0 (either inter receiver) in
    let joined = Connected-Joined w p q plain_p plain_q link in
    let (t, listed_t, rank_t, transfer_t, words_t) =
      create_sources_or_destinations-Mem w p destinations m inter made_to receiver in
    let (f, listed_f, rank_f, transfer_f, words_f) =
      create_sources_or_destinations-Mem w q sources n false made_from
        ((senders-Connected {p = p} w q named process).1 (sender, link)) in
    (
      t,
      f,
      listed_t,
      listed_f,
      rank_t,
      rank_f,
      transfer_t ∙ transfer_to_use_agrees w p q joined ∙ sym transfer_f,
      same (sym words_t ∙ end_size_agrees w m n p q advanced size_p size_q joined ∙ words_f),
    )
  where
    either :
        (b : Bool)
        → Memᴰ q (receivers w b p)
        → Memᴰ q (receivers w false p) ⊎ Memᴰ q (receivers w true p)
    either true h = inr h
    either false h = inl h

    same : {a b : ℕ} → ok a ≡ ok b → a ≡ b
    same e = cc
