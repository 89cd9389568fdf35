-- ===== src/Bookkeeping/Readers/Strict.antt =====
-- rc/control/bookkeeping.py, the loop over the boardreaders with `strict_fragment_id_mode`.
use artdaq_daqinterface.Prelude.{
  ℕ, ◌+◌, ◌*◌, String, ◌=ₛ◌ as ◌==◌, ◌≡◌, ◌≢◌, refl, inl, inr, true, false, some, List, [], ◌∷◌,
  ◌++◌, Dict, lookup, insert, length, length-append, arith, Bool-cases, lookup-insert,
}
use artdaq_daqinterface.Bookkeeping.Errors.{ok, >>=-ok, at_key, at_key-lookup}
use artdaq_daqinterface.Bookkeeping.Graph.{Subsystem}
use artdaq_daqinterface.Bookkeeping.Readers.{
  Patterns, Settings, ReaderTables, modify_key, mem_ids, add_space, add_strictly, reader_fragments,
  fragment_space_of, add_reader, add_readers, initial, empty_tables,
}
use artdaq_daqinterface.Procinfo.{Procinfo, is_boardreader}

abbrev pub Distinct : List ℕ → Type 0
Distinct [] = Unit
Distinct (x ∷ xs) = (mem_ids x xs ≡ false) × Distinct xs

mem_ids-snoc :
    (x y : ℕ) (xs : List ℕ) → mem_ids x xs ≡ false → x ≢ y → mem_ids x (xs ++ y ∷ []) ≡ false
unfolding mem_ids
mem_ids-snoc x y [] h n = ground arith
mem_ids-snoc x y (z ∷ xs) h n = ground (arith, mem_ids-snoc x y xs)

Distinct-snoc : (xs : List ℕ) (y : ℕ) → Distinct xs → mem_ids y xs ≡ false → Distinct (xs ++ y ∷ [])
unfolding mem_ids
Distinct-snoc [] y d h = (refl, tt)
Distinct-snoc (x ∷ xs) y d h =
    (mem_ids-snoc x y xs d.0 (ground arith), Distinct-snoc xs y d.1 (ground arith))

-- Each subsystem's fragment ids are counted once, and take the same space each.
pub record IsCounted (each : ℕ) (t : ReaderTables) : Type 0 where
  pub counted :
      (ss : String) (s : ℕ) (l : List ℕ)
      → lookup ss t.space ≡ some s
      → lookup ss t.ids ≡ some l
      → (s ≡ length l * each) × Distinct l

modify_key-ok :
    {V : Type 0} (k : String) (f : V → V) (m m' : Dict V)
    → modify_key k f m ≡ ok m'
    → (v : V) × (lookup k m ≡ some v) × (m' ≡ insert k (f v) m)
unfolding modify_key
modify_key-ok {V} k f m m' e =
    let (v, at, is) = >>=-ok (at_key m k) (λ v. ok (insert k (f v) m)) e in
    (v, at_key-lookup m k v at, cc)

add_space-ok :
    (ss : String) (n : ℕ) (new : List ℕ) (t t' : ReaderTables)
    → add_space ss n new t ≡ ok t'
    → (s : ℕ) × (l : List ℕ) × (lookup ss t.space ≡ some s)
      × (lookup ss t.ids ≡ some l)
      × (t'.space ≡ insert ss (s + n) t.space)
      × (t'.ids ≡ insert ss (l ++ new) t.ids)
unfolding add_space
add_space-ok ss n new t t' e =
    let (sp, e₁, f₁) = >>=-ok (modify_key ss (λ s. s + n) t.space) _ e in
    let (ids, e₂, f₂) = >>=-ok (modify_key ss (λ l. l ++ new) t.ids) _ f₁ in
    let (s, s_at, s_is) = modify_key-ok ss (λ s. s + n) t.space sp e₁ in
    let (l, l_at, l_is) = modify_key-ok ss (λ l. l ++ new) t.ids ids e₂ in
    let r : ReaderTables = record { space = sp; ids = ids } in
    let same : r ≡ t' = cc in (s, l, s_at, l_at, rw (← same) s_is, rw (← same) l_is)

more_space : (n each : ℕ) → n * each + each ≡ (n + 1) * each
more_space n each = grind arith

module _ (each : ℕ) where
  add_new-IsCounted :
      (ss : String) (tid : ℕ) (l : List ℕ) (t t' : ReaderTables)
      → lookup ss t.ids ≡ some l
      → mem_ids tid l ≡ false
      → add_space ss each (tid ∷ []) t ≡ ok t'
      → IsCounted each t
      → IsCounted each t'
  add_new-IsCounted ss tid l t t' at new e h =
      let (s, l', s_at, l_at, s_is, l_is) = add_space-ok ss each (tid ∷ []) t t' e in
      let same : l' ≡ l = cc (at, l_at) in
      let (count, distinct) = h.counted ss s l s_at at in
      record {
        counted = λ u s' k us uk. elim (Bool-cases (ss == u)) [
          | inl eq ↦
              let us' : some (s + each) ≡ some s' = rw (s_is, lookup-insert, eq) at us in
              let uk' : some (l' ++ tid ∷ []) ≡ some k = rw (l_is, lookup-insert, eq) at uk in
              let k_is : l ++ tid ∷ [] ≡ k = cc (same) in
              rw (← k_is) (
                omega (
                  arith,
                  length-append {0} l (tid ∷ []),
                  more_space (length l) each,
                  number s' us',
                  product l,
                ),
                Distinct-snoc l tid distinct new,
              )
          | inr ne ↦
              h.counted u s' k (rw (s_is, lookup-insert, ne) at us)
                (rw (l_is, lookup-insert, ne) at uk)
        ];
      }
    where
      number : {a : ℕ} (b : ℕ) → some a ≡ some b → a ≡ b
      number b e = cc

      product : (l : List ℕ) → length (l ++ tid ∷ []) * each ≡ (length l + 1) * each
      product l = rw (length-append {0} l (tid ∷ []))

  add_strictly-IsCounted :
      (ss : String) (tids : List ℕ) (t t' : ReaderTables)
      → add_strictly ss each tids t ≡ ok t'
      → IsCounted each t
      → IsCounted each t'
  unfolding add_strictly
  add_strictly-IsCounted ss [] t t' e h = let same : t ≡ t' = cc in rw (← same) h
  add_strictly-IsCounted ss (tid ∷ rest) t t' e h =
      let (l, at, e₁) = >>=-ok (at_key t.ids ss) _ e in
      elim (Bool-cases (mem_ids tid l)) [
        | inl old ↦ add_strictly-IsCounted ss rest t t' (rw old at e₁) h
        | inr new ↦
            let (t₁, added, e₂) =
              >>=-ok (add_space ss each (tid ∷ []) t) (λ t₁. add_strictly ss each rest t₁)
                (rw new at e₁) in
            add_strictly-IsCounted ss rest t₁ t' e₂
              (add_new-IsCounted ss tid l t t₁ (at_key-lookup t.ids ss l at) new added h)
      ]

module _ (re : Patterns) (settings : Settings) (sizes : Dict ℕ)
    (strict : settings.strict_fragment_id_mode ≡ true)
    (uniform : settings.advanced_memory_usage ≡ false) where
  add_reader-IsCounted :
      (p : Procinfo) (t t' : ReaderTables)
      → add_reader re settings sizes p t ≡ ok t'
      → IsCounted settings.max_fragment_size_bytes t
      → IsCounted settings.max_fragment_size_bytes t'
  unfolding add_reader fragment_space_of
  add_reader-IsCounted p t t' e h =
      add_strictly-IsCounted settings.max_fragment_size_bytes p.subsystem
        (reader_fragments re p.fhicl_used).1 t t' (rw (uniform, strict) at e) h

  add_readers-IsCounted :
      (ps : List Procinfo) (t t' : ReaderTables)
      → add_readers re settings sizes ps t ≡ ok t'
      → IsCounted settings.max_fragment_size_bytes t
      → IsCounted settings.max_fragment_size_bytes t'
  unfolding add_readers
  add_readers-IsCounted [] t t' e h = let same : t ≡ t' = cc in rw (← same) h
  add_readers-IsCounted (p ∷ ps) t t' e h = elim (Bool-cases (is_boardreader p)) [
    | inl yes_reader ↦
        let (t₁, e₁, f₁) =
          >>=-ok (add_reader re settings sizes p t) (λ t₁. add_readers re settings sizes ps t₁)
            (rw yes_reader at e) in
        add_readers-IsCounted ps t₁ t' f₁ (add_reader-IsCounted p t t₁ e₁ h)
    | inr other ↦ add_readers-IsCounted ps t t' (rw other at e) h
  ]

lookup-initial :
    {V : Type 0} (v w : V) (ss : String) (g : Dict Subsystem)
    → lookup ss (initial v g) ≡ some w
    → v ≡ w
unfolding lookup initial
lookup-initial v w ss [] h = cc
lookup-initial v w ss ((j, sub) ∷ g) h = elim (Bool-cases (j == ss)) [
  | inl e ↦ let at : some v ≡ some w = rw e at h in cc
  | inr e ↦ lookup-initial v w ss g (rw e at h)
]

empty_tables-IsCounted : (each : ℕ) (g : Dict Subsystem) → IsCounted each (empty_tables g)
unfolding empty_tables
empty_tables-IsCounted each g = record {
  counted = λ ss s l hs hl.
      let no_space : 0 ≡ s = lookup-initial 0 s ss g hs in
      let no_ids : ◌≡◌ {A = List ℕ} [] l = lookup-initial [] l ss g hl in
      rw (← no_ids, ← no_space) (omega arith, tt);
}

-- In strict mode without advanced memory usage: after the loop over the boardreaders no fragment id
-- of a subsystem is there twice, and its fragment space is the configured size times their number.
pub add_readers-strict :
    (re : Patterns) (settings : Settings) (sizes : Dict ℕ) (g : Dict Subsystem)
    (procinfos : List Procinfo) (t : ReaderTables)
    → settings.strict_fragment_id_mode ≡ true
    → settings.advanced_memory_usage ≡ false
    → add_readers re settings sizes procinfos (empty_tables g) ≡ ok t
    → IsCounted settings.max_fragment_size_bytes t
add_readers-strict re settings sizes g procinfos t strict uniform e =
    add_readers-IsCounted re settings sizes strict uniform procinfos (empty_tables g) t e
      (empty_tables-IsCounted settings.max_fragment_size_bytes g)
