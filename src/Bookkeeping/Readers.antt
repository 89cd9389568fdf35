-- ===== src/Bookkeeping/Readers.antt =====
-- rc/control/bookkeeping.py, the two loops over the boardreaders: the fragment sizes by label, and
-- the fragment ids and the fragment space of each subsystem.
pub mod Strict
pub mod Full
use artdaq_daqinterface.Prelude.{
  ℕ, ◌+◌, ◌*◌, String, Bool, true, false, not, Option, none, some, List, [], ◌∷◌, ◌++◌, Dict,
  insert, occurs, if◌then◌else◌, ◌==◌, ◌||◌,
}
use artdaq_daqinterface.Bookkeeping.Errors.{
  Result, ok, err, ◌>>=◌, at_key, no_fragment_size, stray_fragment_size, stray_event_size,
}
use artdaq_daqinterface.Bookkeeping.Graph.{Subsystem}
use artdaq_daqinterface.Procinfo.{Procinfo, is_boardreader}

-- What the searches by regular expression find in a FHiCL document: the last value of
-- `max_fragment_size_bytes`, the first `fragment_id`, the items of the first `fragment_ids` (none for
-- an item that `int` refuses), and whether `sends_no_fragments: true` is there.
pub record Patterns : Type 0 where
  pub max_fragment_size : String → Option ℕ
  pub fragment_id : String → Option ℕ
  pub fragment_ids : String → Option (List (Option ℕ))
  pub sends_no_fragments : String → Bool

pub record Settings : Type 0 where
  pub advanced_memory_usage : Bool
  pub strict_fragment_id_mode : Bool
  pub max_fragment_size_bytes : ℕ

module _ (re : Patterns) where
  -- The body of the first loop, for one process.
  unfoldable pub note_fragment_size : Procinfo → Dict ℕ → Result (Dict ℕ)
  note_fragment_size p sizes =
      let res = re.max_fragment_size p.fhicl_used in
      (if is_boardreader p
        then elim res [
          | some n ↦ ok (insert p.label n sizes)
          | none ↦ err (no_fragment_size p.label)
        ]
        else elim res [ some n ↦ err (stray_fragment_size p.label) | none ↦ ok sizes ])
      >>= λ sizes'.
          if occurs "max_event_size_bytes" p.fhicl_used
          then err (stray_event_size p.label)
          else ok sizes'

  unfoldable pub max_fragment_size_by_label : List Procinfo → Dict ℕ → Result (Dict ℕ)
  unfolding note_fragment_size
  max_fragment_size_by_label [] sizes = ok sizes
  max_fragment_size_by_label (p ∷ ps) sizes =
      note_fragment_size p sizes >>= λ sizes'. max_fragment_size_by_label ps sizes'

  -- `for id in ids: try: reader_ids.append(int(id)); sz += 1; except ValueError: continue`
  unfoldable pub read_ids : List (Option ℕ) → List ℕ → ℕ → List ℕ × ℕ
  read_ids [] ids sz = (ids, sz)
  read_ids (some n ∷ items) ids sz = read_ids items (ids ++ n ∷ []) (sz + 1)
  read_ids (none ∷ items) ids sz = read_ids items ids sz

  -- `generated_fragments_per_event` and `reader_ids`.
  unfoldable pub reader_fragments : String → ℕ × List ℕ
  unfolding read_ids
  reader_fragments fhicl =
      let single : List ℕ = elim (re.fragment_id fhicl) [ some n ↦ n ∷ [] | none ↦ [] ] in
      let both : ℕ × List ℕ = elim (re.fragment_ids fhicl) [
        | some items ↦ let (ids, sz) = read_ids items single 0 in (sz, ids)
        | none ↦ (1, single)
      ] in
      if re.sends_no_fragments fhicl then (0, []) else both

-- `subsystem_fragment_space` and `subsystem_fragment_ids`
pub record ReaderTables : Type 0 where
  pub space : Dict ℕ
  pub ids : Dict (List ℕ)

-- `m[k] = f(m[k])`
unfoldable pub modify_key {ℓ} : {V : Type ℓ} → String → (V → V) → Dict V → Result (Dict V)
unfolding at_key insert
modify_key k f m = at_key m k >>= λ v. ok (insert k (f v) m)

unfoldable pub mem_ids : ℕ → List ℕ → Bool
mem_ids x [] = false
mem_ids x (y ∷ ys) = y == x || mem_ids x ys

unfoldable pub add_space : String → ℕ → List ℕ → ReaderTables → Result ReaderTables
unfolding modify_key
add_space ss n new t = modify_key ss (λ s. s + n) t.space >>= λ space.
    modify_key ss (λ l. l ++ new) t.ids >>= λ ids. ok (record { space = space; ids = ids })

-- The loop of strict mode over the ids of one reader.
unfoldable pub add_strictly : String → ℕ → List ℕ → ReaderTables → Result ReaderTables
unfolding mem_ids
add_strictly ss fragment_space [] t = ok t
add_strictly ss fragment_space (tid ∷ rest) t = at_key t.ids ss >>= λ l.
    (if mem_ids tid l then ok t else add_space ss fragment_space (tid ∷ []) t) >>= λ t'.
    add_strictly ss fragment_space rest t'

module _ (re : Patterns) (settings : Settings) (sizes : Dict ℕ) where
  unfoldable pub fragment_space_of : Procinfo → Result ℕ
  fragment_space_of p =
      if settings.advanced_memory_usage
      then at_key sizes p.label
      else ok settings.max_fragment_size_bytes

  unfoldable pub add_reader : Procinfo → ReaderTables → Result ReaderTables
  unfolding reader_fragments fragment_space_of add_strictly add_space
  add_reader p t =
      let (generated, reader_ids) = reader_fragments re p.fhicl_used in
      fragment_space_of p >>= λ fragment_space.
      if not settings.strict_fragment_id_mode
      then add_space p.subsystem (generated * fragment_space) reader_ids t
      else add_strictly p.subsystem fragment_space reader_ids t

  unfoldable pub add_readers : List Procinfo → ReaderTables → Result ReaderTables
  unfolding add_reader
  add_readers [] t = ok t
  add_readers (p ∷ ps) t =
      (if is_boardreader p then add_reader p t else ok t) >>= λ t'. add_readers ps t'

-- `for ss in self.subsystems: table[ss] = v`
unfoldable pub initial {ℓ} : {V : Type ℓ} → V → Dict Subsystem → Dict V
initial v [] = []
initial v ((ss, sub) ∷ g) = (ss, v) ∷ initial v g

unfoldable pub empty_tables : Dict Subsystem → ReaderTables
unfolding initial
empty_tables g = record { space = initial 0 g; ids = initial [] g }
