-- ===== src/Wiring/Parameters.antt =====
-- rc/control/bookkeeping.py: the parameters of a connection in the tables at its two ends.
use artdaq_daqinterface.Prelude.{ℕ, ◌/◌, String, ◌≡◌, refl, ap, Bool, true, some, lookup}
use artdaq_daqinterface.Procinfo.{Procinfo}
use artdaq_daqinterface.Bookkeeping.Errors.{Result, ok, err, ◌>>=◌, at_key, lookup-at_key}
use artdaq_daqinterface.Wiring.{Wiring, Nodetype, sources, destinations}
use artdaq_daqinterface.Wiring.Nodes.{
  transfer_to_use, buffer_size_words, source_size_words, assigned, node_size_words,
}
use artdaq_daqinterface.Wiring.Connections.{Feeds}

-- The size in the entry for `q` of a table of `p`.
abbrev pub end_size : Wiring → Nodetype → ℕ → Procinfo → Procinfo → Result ℕ
end_size w nodetype max_event_size p q = buffer_size_words w nodetype max_event_size p >>= λ buffer.
    node_size_words w nodetype buffer p q

-- Two processes that a connection joins, by their names: within a subsystem, or as eventbuilders.
pub data Joined (has_dataloggers : Bool) (p q : Procinfo) : Type 0 where
  within :
      q.subsystem ≡ p.subsystem → Feeds has_dataloggers p.name q.name → Joined has_dataloggers p q
  between : p.name ≡ "EventBuilder" → q.name ≡ "EventBuilder" → Joined has_dataloggers p q

pub transfer_to_use_agrees :
    {has_dataloggers : Bool} (w : Wiring) (p q : Procinfo)
    → Joined has_dataloggers p q
    → transfer_to_use w p q ≡ transfer_to_use w q p
unfolding transfer_to_use
transfer_to_use_agrees w p q (Joined.within same (Feeds.readout s r)) = rw s (rw r refl)
transfer_to_use_agrees w p q (Joined.within same (Feeds.logging s r)) = rw s (rw r refl)
transfer_to_use_agrees w p q (Joined.within same (Feeds.direct s r b)) = rw s (rw r refl)
transfer_to_use_agrees w p q (Joined.within same (Feeds.monitoring s r)) = rw s (rw r refl)
transfer_to_use_agrees w p q (Joined.between s r) = rw s (rw r refl)

same_size :
    (w : Wiring) {m n : ℕ} {ss ss' : String}
    → ss' ≡ ss
    → lookup ss w.max_event_sizes ≡ some m
    → lookup ss' w.max_event_sizes ≡ some n
    → m ≡ n
same_size w same size_p size_q = cc

-- With advanced memory usage, where each end's event size is that of its subsystem.
pub end_size_agrees :
    {has_dataloggers : Bool} (w : Wiring) (m n : ℕ) (p q : Procinfo)
    → w.advanced_memory_usage ≡ true
    → lookup p.subsystem w.max_event_sizes ≡ some m
    → lookup q.subsystem w.max_event_sizes ≡ some n
    → Joined has_dataloggers p q
    → end_size w destinations m p q ≡ end_size w sources n q p
unfolding buffer_size_words node_size_words source_size_words assigned
end_size_agrees w m n p q advanced size_p size_q (Joined.within same (Feeds.readout s r)) =
    rw advanced (rw s (rw r (by_case (at_key w.max_fragment_size_by_label p.label))))
  where
    by_case :
        (o : Result ℕ)
        → ((o >>= λ k. ok (some (k / 8))) >>= λ buffer. assigned buffer) ≡ (o >>= λ k. ok (k / 8))
    by_case (err fault) = refl
    by_case (ok k) = refl
end_size_agrees w m n p q advanced size_p size_q (Joined.within same (Feeds.logging s r)) =
    rw advanced (rw s (rw r (ap (λ k. ok (k / 8)) (same_size w same size_p size_q))))
end_size_agrees w m n p q advanced size_p size_q (Joined.within same (Feeds.direct s r b)) =
    rw advanced (rw s (rw r (ap (λ k. ok (k / 8)) (same_size w same size_p size_q))))
end_size_agrees w m n p q advanced size_p size_q (Joined.within same (Feeds.monitoring s r)) =
    rw advanced (rw s (rw r (ap (λ k. ok (k / 8)) (same_size w same size_p size_q))))
end_size_agrees w m n p q advanced size_p size_q (Joined.between s r) =
    rw advanced (rw s (rw r (rw (lookup-at_key w.max_event_sizes p.subsystem m size_p) refl)))
