-- ===== src/Bookkeeping/Errors.antt =====
-- rc/control/bookkeeping.py: the exceptions that the bookkeeping raises, as values.
use artdaq_daqinterface.Prelude.{String, ◌≡◌, refl, none, some, List, Dict, lookup, arith}

-- `out_of_fuel` is no outcome of the program: it marks a recursion that the model cut off.
pub data Fault : Type 0 where
  key_error : String → Fault
  out_of_fuel : Fault
  no_fragment_size : (label : String) → Fault
  stray_fragment_size : (label : String) → Fault
  stray_event_size : (label : String) → Fault
  circular : List String → Fault
  assertion_error : Fault

-- The outcome of a piece of the program: an exception or a value.
pub data Result {ℓ} (V : Type ℓ) : Type ℓ where
  err : Fault → Result V
  ok : V → Result V

-- An exception ends the block.
infixl 5 ◌>>=◌
abbrev pub ◌>>=◌ {ℓ κ} : {V : Type ℓ} {W : Type κ} → Result V → (V → Result W) → Result W
◌>>=◌ (err fault) next = err fault
◌>>=◌ (ok v) next = next v

-- A block that ends well has a first part that does.
module _ {ℓ κ} {V : Type ℓ} {W : Type κ} where
  pub >>=-ok :
      (first : Result V) (next : V → Result W) {w : W}
      → (first >>= next) ≡ ok w
      → (v : V) × (first ≡ ok v) × (next v ≡ ok w)
  >>=-ok (err fault) next e = cc
  >>=-ok (ok v) next e = (v, refl, e)

module _ {ℓ} {V : Type ℓ} where
  -- `m[k]`
  unfoldable pub at_key : Dict V → String → Result V
  unfolding lookup
  at_key m k = elim (lookup k m) [ none ↦ err (key_error k) | some v ↦ ok v ]

  pub at_key-lookup : (m : Dict V) (k : String) (v : V) → at_key m k ≡ ok v → lookup k m ≡ some v
  unfolding at_key
  at_key-lookup m k v h = ground arith

  pub lookup-at_key : (m : Dict V) (k : String) (v : V) → lookup k m ≡ some v → at_key m k ≡ ok v
  unfolding at_key
  lookup-at_key m k v h = ground arith
