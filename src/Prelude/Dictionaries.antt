-- ===== src/Prelude/Dictionaries.antt =====
-- Python dictionaries keyed by texts, as association lists in the order of insertion.
use Prim.Native.String.{String}
use mathlib.Core.Path.{◌≡◌, refl, sym, ap, subst}
use mathlib.Core.Bool.{Bool, true, false}
use mathlib.Core.Option.{Option, none, some}
use mathlib.Core.List.{List, [], ◌∷◌, Memᴰ}
use mathlib.Core.List.Memᴰ
use native.Mathlib.Omega.{arith}
use text.Mathlib.Text.{◌==◌}
use text.Mathlib.TextEquality.{eq_iff}
use text.Mathlib.TextPositions.{eq_refl}
use artdaq_daqinterface.Prelude.Tests.{if◌then◌else◌, if_cases, Bool-absurd}
use artdaq_daqinterface.Prelude.Lists.{isin, IsDistinct}

abbrev pub Dict {ℓ} : Type ℓ → Type ℓ
Dict V = List (String × V)

module _ {ℓ} {V : Type ℓ} where
  -- The value of an entry for its own key, and what the rest of the dictionary says for another.
  abbrev read_entry : String × V → String → Option V → Option V
  read_entry entry name elsewhere = if entry.0 == name then some entry.1 else elsewhere

  unfoldable pub lookup : String → Dict V → Option V
  lookup name [] = none
  lookup name (entry ∷ rest) = read_entry entry name (lookup name rest)

  -- An assignment to a key keeps the place of an old entry and appends a new one.
  unfoldable pub insert : String → V → Dict V → Dict V
  insert name new [] = (name, new) ∷ []
  insert name new (entry ∷ rest) =
      let after = entry ∷ insert name new rest in
      if entry.0 == name then (entry.0, new) ∷ rest else after

  unfoldable pub keys : Dict V → List String
  keys [] = []
  keys ((j, v) ∷ m) = j ∷ keys m

  -- `k in m`
  unfoldable pub has : String → Dict V → Bool
  unfolding lookup
  has k m = elim (lookup k m) [ none ↦ false | some v ↦ true ]

  -- A lookup behind an assignment sees the new value at its key, and the old one elsewhere.
  pub lookup-insert :
      (name other : String) (new : V) (table : Dict V)
      → lookup other (insert name new table)
        ≡ (if name == other then some new else lookup other table)
  unfolding lookup insert
  lookup-insert name other new [] = refl
  lookup-insert name other new (entry ∷ rest) =
      let again = lookup-insert name other new rest in
      ground (arith, again, eq_iff name other, eq_iff entry.0 name, eq_iff entry.0 other)

  pub has-lookup : (k : String) (m : Dict V) → has k m ≡ true → (v : V) × (lookup k m ≡ some v)
  unfolding has
  has-lookup k m h = ground arith

  pub lookup-has : (k : String) (v : V) (m : Dict V) → lookup k m ≡ some v → has k m ≡ true
  unfolding has
  lookup-has k v m h = ground arith

  pub has-insert :
      (k j : String) (v : V) (m : Dict V)
      → has j (insert k v m) ≡ (if k == j then true else has j m)
  unfolding has
  has-insert k j v m = ground (arith, lookup-insert k j v m)

  -- An entry that a lookup finds is in the dictionary, and the other way round where keys are distinct.
  pub lookup-Mem : (k : String) (v : V) (m : Dict V) → lookup k m ≡ some v → Memᴰ (k, v) m
  unfolding lookup
  lookup-Mem k v [] h = cc
  lookup-Mem k v ((j, u) ∷ rest) h =
      if_cases (λ o. o ≡ some v → Memᴰ (k, v) ((j, u) ∷ rest)) (j == k)
        (λ same e. Memᴰ.head (here ((eq_iff j k).0 same) e))
        (λ differs e. Memᴰ.tail (lookup-Mem k v rest e)) h
    where
      here : j ≡ k → some u ≡ some v → ◌≡◌ {A = String × V} (k, v) (j, u)
      here same e = cc

  pub Mem-isin : (k : String) (v : V) (m : Dict V) → Memᴰ (k, v) m → isin k (keys m) ≡ true
  unfolding isin keys
  Mem-isin k v [] m = absurd (Memᴰ.not-nil m)
  Mem-isin k v ((j, u) ∷ rest) (Memᴰ.head e) = rw (ap (λ x. x.0) (sym e)) (rw (eq_refl k) refl)
  Mem-isin k v ((j, u) ∷ rest) (Memᴰ.tail m) = ground (arith, Mem-isin k v rest m)

  pub Mem-lookup :
      (k : String) (v : V) (m : Dict V) → IsDistinct (keys m) → Memᴰ (k, v) m → lookup k m ≡ some v
  unfolding lookup keys
  Mem-lookup k v [] distinct m = absurd (Memᴰ.not-nil m)
  Mem-lookup k v ((j, u) ∷ rest) distinct (Memᴰ.head e) =
      rw (ap (λ x. x.0) (sym e)) (rw (eq_refl k) (ap (λ x. some x.1) (sym e)))
  Mem-lookup k v ((j, u) ∷ rest) distinct (Memᴰ.tail m) =
      if_cases (λ o. o ≡ some v) (j == k)
        (λ same. absurd (
          Bool-absurd
            (subst (λ i. isin i (keys rest) ≡ true) (sym ((eq_iff j k).0 same))
              (Mem-isin k v rest m))
            distinct.0))
        (λ differs. Mem-lookup k v rest distinct.1 m)
