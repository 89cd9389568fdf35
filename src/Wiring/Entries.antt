-- ===== src/Wiring/Entries.antt =====
-- rc/control/bookkeeping.py: the entries that the tables have.
use artdaq_daqinterface.Prelude.{
  ℕ, String, ◌≡◌, refl, sym, ap, subst, ◌∙◌, Bool, true, false, Option, none, some, List, [], ◌∷◌,
  Memᴰ, if◌then◌else◌, ◌&&◌, has, if_cases,
}
use mathlib.Core.List.Memᴰ
use artdaq_daqinterface.Procinfo.{Procinfo, is_eventbuilder}
use artdaq_daqinterface.Bookkeeping.Errors.{ok, ◌>>=◌, >>=-ok}
use artdaq_daqinterface.Wiring.{
  Wiring, Nodetype, is_sources, any_datalogger, procinfos_for_string, subsystem_has_dataloggers,
}
use artdaq_daqinterface.Wiring.Nodes.{
  Node, transfer_to_use, buffer_size_words, source_size_words, assigned, node_size_words, nodes,
  create_sources_or_destinations,
}
use artdaq_daqinterface.Wiring.Parameters.{end_size}

-- The entry for `r` in a table of `p`.
abbrev node_for : Wiring → Procinfo → Option (List (ℕ × String)) → Procinfo → ℕ → Node
node_for w p hms r size = record {
  rank = r.rank;
  transfer = transfer_to_use w p r;
  max_fragment_size_words = size;
  host_map = hms;
}

nodes-cons :
    (w : Wiring) (nodetype : Nodetype) (p r : Procinfo) (rs : List Procinfo)
    (hms : Option (List (ℕ × String))) (buffer : Option ℕ) {ns : List Node}
    → nodes w nodetype p hms buffer (r ∷ rs) ≡ ok ns
    → (size : ℕ) × (rest : List Node) × (node_size_words w nodetype buffer p r ≡ ok size)
      × (nodes w nodetype p none (some size) rs ≡ ok rest)
      × (ns ≡ node_for w p hms r size ∷ rest)
unfolding nodes
nodes-cons w nodetype p r rs hms buffer e =
    let (size, sized, later) = >>=-ok (node_size_words w nodetype buffer p r) _ e in
    let (rest, made, same) = >>=-ok (nodes w nodetype p none (some size) rs) _ later in
    (size, rest, sized, made, cc)

-- A size that is kept for the next entry is the one that this entry has anyway.
node_size_words-kept :
    (w : Wiring) (nodetype : Nodetype) (buffer : Option ℕ) (p q r : Procinfo) {size : ℕ}
    → node_size_words w nodetype buffer p r ≡ ok size
    → node_size_words w nodetype (some size) p q ≡ node_size_words w nodetype buffer p q
unfolding node_size_words assigned
node_size_words-kept w nodetype buffer p q r {size} e =
    by_case (is_sources nodetype && is_eventbuilder p) e
  where
    by_case :
        (b : Bool)
        → (if b then source_size_words w r else assigned buffer) ≡ ok size
        → (if b then source_size_words w q else ok size)
          ≡ (if b then source_size_words w q else assigned buffer)
    by_case true e = refl
    by_case false e = sym e

-- Each listed process has an entry with its rank, the transfer and the size for the two processes.
pub nodes-Mem :
    {q : Procinfo} (w : Wiring) (nodetype : Nodetype) (p : Procinfo) (qs : List Procinfo)
    (hms : Option (List (ℕ × String))) (buffer : Option ℕ) {ns : List Node}
    → Memᴰ q qs
    → nodes w nodetype p hms buffer qs ≡ ok ns
    → (n : Node) × Memᴰ n ns
      × (n.rank ≡ q.rank)
      × (n.transfer ≡ transfer_to_use w p q)
      × (node_size_words w nodetype buffer p q ≡ ok n.max_fragment_size_words)
nodes-Mem w nodetype p [] hms buffer m e = absurd (Memᴰ.not-nil m)
nodes-Mem {q} w nodetype p (r ∷ rs) hms buffer (Memᴰ.head same) e =
    let (size, rest, sized, made, split) = nodes-cons w nodetype p r rs hms buffer e in
    (
      node_for w p hms r size,
      subst (λ ns. Memᴰ (node_for w p hms r size) ns) (sym split) (Memᴰ.head refl),
      ap (λ x. x.rank) (sym same),
      ap (λ x. transfer_to_use w p x) (sym same),
      ap (λ x. node_size_words w nodetype buffer p x) same ∙ sized,
    )
nodes-Mem {q} w nodetype p (r ∷ rs) hms buffer (Memᴰ.tail m) e =
    let (size, rest, sized, made, split) = nodes-cons w nodetype p r rs hms buffer e in
    let (n, listed, rank, transfer, size_q) = nodes-Mem w nodetype p rs none (some size) m made in
    (
      n,
      subst (λ ns. Memᴰ n ns) (sym split) (Memᴰ.tail listed),
      rank,
      transfer,
      sym (node_size_words-kept w nodetype buffer p q r sized) ∙ size_q,
    )

subsystem_has_dataloggers-any_datalogger :
    (w : Wiring) (ss : String) {b : Bool}
    → subsystem_has_dataloggers w ss ≡ ok b
    → b ≡ any_datalogger ss w.procinfos
unfolding subsystem_has_dataloggers
subsystem_has_dataloggers-any_datalogger w ss {b} e =
    if_cases (λ o. o ≡ ok b → b ≡ any_datalogger ss w.procinfos) (has ss w.subsystems) (λ h f. cc)
      (λ h f. cc) e

-- A table that is made has an entry for each process that is selected for it.
pub create_sources_or_destinations-Mem :
    {q : Procinfo} (w : Wiring) (p : Procinfo) (nodetype : Nodetype) (max_event_size : ℕ)
    (inter : Bool) {ns : List Node}
    → create_sources_or_destinations w p nodetype max_event_size inter ≡ ok ns
    → Memᴰ q (procinfos_for_string w nodetype inter (any_datalogger p.subsystem w.procinfos) p)
    → (n : Node) × Memᴰ n ns
      × (n.rank ≡ q.rank)
      × (n.transfer ≡ transfer_to_use w p q)
      × (end_size w nodetype max_event_size p q ≡ ok n.max_fragment_size_words)
unfolding create_sources_or_destinations
create_sources_or_destinations-Mem {q} w p nodetype max_event_size inter e m =
    let (buffer, sized, later) = >>=-ok (buffer_size_words w nodetype max_event_size p) _ e in
    let (b, answered, made) = >>=-ok (subsystem_has_dataloggers w p.subsystem) _ later in
    let here = subsystem_has_dataloggers-any_datalogger w p.subsystem answered in
    let (n, listed, rank, transfer, size) =
      nodes-Mem w nodetype p (procinfos_for_string w nodetype inter b p) _ buffer
        (subst (λ x. Memᴰ q (procinfos_for_string w nodetype inter x p)) (sym here) m) made in
    (n, listed, rank, transfer, ap (λ o. o >>= λ x. node_size_words w nodetype x p q) sized ∙ size)
