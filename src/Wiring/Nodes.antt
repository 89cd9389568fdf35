-- ===== src/Wiring/Nodes.antt =====
-- rc/control/bookkeeping.py, `create_sources_or_destinations_string`: the entries of one table.
use artdaq_daqinterface.Prelude.{
  ℕ, ◌/◌, String, ◌=ₛ◌, Bool, not, ◌&&◌, ◌||◌, Option, none, some, List, [], ◌∷◌, occurs,
  if◌then◌else◌,
}
use artdaq_daqinterface.Procinfo.{Procinfo, is_boardreader, is_eventbuilder}
use artdaq_daqinterface.Bookkeeping.Errors.{Result, ok, err, ◌>>=◌, at_key, assertion_error}
use artdaq_daqinterface.Wiring.{
  Wiring, host_map, sorted_by_rank, subsystem_has_dataloggers, Nodetype, is_sources,
  procinfos_for_string,
}

-- One entry; its name is the prefix of the node type with the rank.
pub record Node : Type 0 where
  pub rank : ℕ
  pub transfer : String
  pub max_fragment_size_words : ℕ
  pub host_map : Option (List (ℕ × String))

unfoldable pub transfer_to_use : Wiring → Procinfo → Procinfo → String
transfer_to_use w p q =
    if is_boardreader p || (q.name =ₛ "BoardReader")
    then w.br_transfer
    else (if is_eventbuilder p || (q.name =ₛ "EventBuilder")
        then w.eb_transfer
        else (if occurs "DataLogger" p.name || (q.name =ₛ "DataLogger")
            then w.dl_transfer
            else w.default_transfer))

-- `buffer_size_words` before the loop, with none for -1.
unfoldable pub buffer_size_words : Wiring → Nodetype → ℕ → Procinfo → Result (Option ℕ)
unfolding at_key
buffer_size_words w nodetype max_event_size p =
    let one_for_all = not (is_eventbuilder p) || not (is_sources nodetype) in
    if w.advanced_memory_usage
    then (if is_boardreader p
        then (at_key w.max_fragment_size_by_label p.label >>= λ n. ok (some (n / 8)))
        else (if one_for_all then ok (some (max_event_size / 8)) else ok none))
    else (if is_boardreader p
        then ok (some (w.max_fragment_size_bytes / 8))
        else (if one_for_all
            then elim (w.max_event_size_value p.fhicl_used) [
              | some n ↦ ok (some (n / 8))
              | none ↦ ok (some (max_event_size / 8))
            ]
            else ok none))

-- The size for one source of an eventbuilder.
unfoldable pub source_size_words : Wiring → Procinfo → Result ℕ
unfolding at_key
source_size_words w q =
    if q.name =ₛ "BoardReader"
    then (if w.advanced_memory_usage
        then (at_key w.max_fragment_size_by_label q.label >>= λ n. ok (n / 8))
        else ok (w.max_fragment_size_bytes / 8))
    else (if q.name =ₛ "EventBuilder"
        then (at_key w.max_event_sizes q.subsystem >>= λ n. ok (n / 8))
        else err assertion_error)

-- `assert buffer_size_words != -1`
unfoldable pub assigned : Option ℕ → Result ℕ
assigned none = err assertion_error
assigned (some n) = ok n

unfoldable pub node_size_words : Wiring → Nodetype → Option ℕ → Procinfo → Procinfo → Result ℕ
unfolding source_size_words assigned
node_size_words w nodetype buffer p q =
    if is_sources nodetype && is_eventbuilder p then source_size_words w q else assigned buffer

-- The loop; the host map stands in the first entry. An entry's size is kept for the next one.
unfoldable pub nodes :
    Wiring
    → Nodetype
    → Procinfo
    → Option (List (ℕ × String))
    → Option ℕ
    → List Procinfo
    → Result (List Node)
unfolding node_size_words transfer_to_use
nodes w nodetype p hms buffer [] = ok []
nodes w nodetype p hms buffer (q ∷ qs) = node_size_words w nodetype buffer p q >>= λ size.
    nodes w nodetype p none (some size) qs >>= λ rest. ok (
      record {
        rank = q.rank;
        transfer = transfer_to_use w p q;
        max_fragment_size_words = size;
        host_map = hms;
      }
      ∷ rest)

unfoldable pub create_sources_or_destinations :
    Wiring → Procinfo → Nodetype → ℕ → Bool → Result (List Node)
unfolding buffer_size_words subsystem_has_dataloggers procinfos_for_string nodes host_map
    sorted_by_rank
create_sources_or_destinations w p nodetype max_event_size inter_subsystem_transfer =
    buffer_size_words w nodetype max_event_size p >>= λ buffer.
    subsystem_has_dataloggers w p.subsystem >>= λ has_dataloggers.
    nodes w nodetype p (some (host_map w (sorted_by_rank w.procinfos))) buffer
      (procinfos_for_string w nodetype inter_subsystem_transfer has_dataloggers p)
