-- ===== src/Bookkeeping/Readers/Full.antt =====
-- rc/control/bookkeeping.py, the loop over the boardreaders: it returns, with an entry for each
-- subsystem.
use artdaq_daqinterface.Prelude.{
  ℕ, ◌+◌, ◌*◌, String, ◌≡◌, refl, inl, inr, true, false, List, [], ◌∷◌, ◌++◌, Dict, lookup, insert,
  has, arith, Bool-cases, has-insert, has-lookup,
}
use artdaq_daqinterface.Bookkeeping.Errors.{ok, lookup-at_key}
use artdaq_daqinterface.Bookkeeping.Graph.{Subsystem}
use artdaq_daqinterface.Bookkeeping.Readers.{
  Patterns, Settings, ReaderTables, modify_key, mem_ids, add_space, add_strictly, reader_fragments,
  fragment_space_of, add_reader, add_readers, initial, empty_tables,
}
use artdaq_daqinterface.Procinfo.{Procinfo, is_boardreader}

-- The readers' tables have an entry for every subsystem.
pub record IsFull (g : Dict Subsystem) (readers : ReaderTables) : Type 0 where
  pub spaces : (ss : String) → has ss g ≡ true → has ss readers.space ≡ true
  pub idents : (ss : String) → has ss g ≡ true → has ss readers.ids ≡ true

has-insert_keeps :
    {V : Type 0} (k j : String) (v : V) (m : Dict V) → has j m ≡ true → has j (insert k v m) ≡ true
has-insert_keeps k j v m h = ground (arith, has-insert k j v m)

module _ (g : Dict Subsystem) (ss : String) (known : has ss g ≡ true) where
  add_space-IsFull :
      (n : ℕ) (new : List ℕ) (t : ReaderTables)
      → IsFull g t
      → (t' : ReaderTables) × (add_space ss n new t ≡ ok t') × IsFull g t'
  unfolding add_space modify_key
  add_space-IsFull n new t full =
      let (s, s_at) = has-lookup ss t.space (full.spaces ss known) in
      let (l, l_at) = has-lookup ss t.ids (full.idents ss known) in
      (
        record { space = insert ss (s + n) t.space; ids = insert ss (l ++ new) t.ids },
        rw (lookup-at_key t.space ss s s_at, lookup-at_key t.ids ss l l_at),
        record {
          spaces = λ u h. has-insert_keeps ss u (s + n) t.space (full.spaces u h);
          idents = λ u h. has-insert_keeps ss u (l ++ new) t.ids (full.idents u h);
        },
      )

  add_strictly-IsFull :
      (each : ℕ) (tids : List ℕ) (t : ReaderTables)
      → IsFull g t
      → (t' : ReaderTables) × (add_strictly ss each tids t ≡ ok t') × IsFull g t'
  unfolding add_strictly
  add_strictly-IsFull each [] t full = (t, refl, full)
  add_strictly-IsFull each (tid ∷ rest) t full =
      let (l, l_at) = has-lookup ss t.ids (full.idents ss known) in
      let at = lookup-at_key t.ids ss l l_at in
      elim (Bool-cases (mem_ids tid l)) [
        | inl old ↦
            let (t', e, full') = add_strictly-IsFull each rest t full in (t', rw (at, old) e, full')
        | inr new ↦
            let (t₁, e₁, full₁) = add_space-IsFull each (tid ∷ []) t full in
            let (t', e, full') = add_strictly-IsFull each rest t₁ full₁ in
            (t', rw (at, new, e₁) e, full')
      ]

-- Every boardreader belongs to a subsystem.
abbrev pub Belong : Dict Subsystem → List Procinfo → Type 0
Belong g [] = Unit
Belong g (p ∷ ps) = (is_boardreader p ≡ true → has p.subsystem g ≡ true) × Belong g ps

module _ (re : Patterns) (settings : Settings) (sizes : Dict ℕ) (g : Dict Subsystem)
    (uniform : settings.advanced_memory_usage ≡ false) where
  add_reader-IsFull :
      (p : Procinfo) (t : ReaderTables)
      → has p.subsystem g ≡ true
      → IsFull g t
      → (t' : ReaderTables) × (add_reader re settings sizes p t ≡ ok t') × IsFull g t'
  unfolding add_reader fragment_space_of
  add_reader-IsFull p t known full =
      let found = reader_fragments re p.fhicl_used in
      let each = settings.max_fragment_size_bytes in
      elim (Bool-cases settings.strict_fragment_id_mode) [
        | inl strict ↦
            let (t', e, full') = add_strictly-IsFull g p.subsystem known each found.1 t full in
            (t', rw (uniform, strict) e, full')
        | inr lax ↦
            let (t', e, full') =
              add_space-IsFull g p.subsystem known (found.0 * each) found.1 t full in
            (t', rw (uniform, lax) e, full')
      ]

  add_readers-IsFull :
      (ps : List Procinfo) (t : ReaderTables)
      → Belong g ps
      → IsFull g t
      → (t' : ReaderTables) × (add_readers re settings sizes ps t ≡ ok t') × IsFull g t'
  unfolding add_readers
  add_readers-IsFull [] t b full = (t, refl, full)
  add_readers-IsFull (p ∷ ps) t b full = elim (Bool-cases (is_boardreader p)) [
    | inl reads ↦
        let (t₁, e₁, full₁) = add_reader-IsFull p t (b.0 reads) full in
        let (t', e, full') = add_readers-IsFull ps t₁ b.1 full₁ in (t', rw (reads, e₁) e, full')
    | inr other ↦ let (t', e, full') = add_readers-IsFull ps t b.1 full in (t', rw other e, full')
  ]

has-initial :
    {V : Type 0} (v : V) (ss : String) (g : Dict Subsystem)
    → has ss g ≡ true
    → has ss (initial v g) ≡ true
unfolding initial has lookup
has-initial v ss [] h = cc
has-initial v ss ((j, sub) ∷ g) h = ground (arith, has-initial v ss g)

-- Without advanced memory usage, where each boardreader belongs to a known subsystem, the loop
-- returns tables with an entry for every subsystem.
pub add_readers_fill :
    (re : Patterns) (settings : Settings) (sizes : Dict ℕ) (g : Dict Subsystem)
    (procinfos : List Procinfo)
    → settings.advanced_memory_usage ≡ false
    → Belong g procinfos
    → (t : ReaderTables) × (add_readers re settings sizes procinfos (empty_tables g) ≡ ok t)
      × IsFull g t
unfolding empty_tables
add_readers_fill re settings sizes g procinfos uniform belong =
    add_readers-IsFull re settings sizes g uniform procinfos (empty_tables g) belong
      (record { spaces = λ ss h. has-initial 0 ss g h; idents = λ ss h. has-initial [] ss g h })
