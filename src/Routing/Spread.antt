-- ===== src/Routing/Spread.antt =====
-- rc/control/bookkeeping.py: the ports of routing processes are all different.
use artdaq_daqinterface.Prelude.{
  ℕ, suc, ◌+◌, ◌≤◌, ◌<◌, ◌≢◌, String, ◌≡◌, subst, some, List, [], ◌∷◌, if_cases, if_both, arith,
}
use artdaq_daqinterface.Wiring.{same_key}
use artdaq_daqinterface.Routing.{assign, find_key}

abbrev pub PortTable : Type 0
PortTable = List ((String × String) × ℕ)

-- No entry has the port.
abbrev pub IsFresh : ℕ → PortTable → Type 0
IsFresh n [] = Unit
IsFresh n ((k, m) ∷ rest) = (n ≢ m) × IsFresh n rest

-- The ports are among the first `count` from `base` on, and no two are the same.
abbrev pub IsSpread : ℕ → ℕ → PortTable → Type 0
IsSpread base count [] = Unit
IsSpread base count ((k, m) ∷ rest) =
    (base ≤ m) × (m < base + count) × IsFresh m rest × IsSpread base count rest

IsSpread-IsFresh :
    (base count : ℕ) (t : PortTable) → IsSpread base count t → IsFresh (base + count) t
IsSpread-IsFresh base count [] s = tt
IsSpread-IsFresh base count ((k, m) ∷ rest) s =
    let below = s.1 in (omega (arith, below), IsSpread-IsFresh base count rest s.3)

IsSpread-more :
    (base count : ℕ) (t : PortTable) → IsSpread base count t → IsSpread base (suc count) t
IsSpread-more base count [] s = tt
IsSpread-more base count ((k, m) ∷ rest) s =
    let below = s.1 in (s.0, omega (arith, below), s.2, IsSpread-more base count rest s.3)

assign-IsFresh :
    (n port : ℕ) (key : String × String) (t : PortTable)
    → n ≢ port
    → IsFresh n t
    → IsFresh n (assign key port t)
unfolding assign
assign-IsFresh n port key [] other f = (other, tt)
assign-IsFresh n port key ((k, m) ∷ rest) other f =
    if_both (IsFresh n) (same_key k key) (other, f.1)
      (f.0, assign-IsFresh n port key rest other f.1)

-- An assignment of the next port keeps the ports apart.
pub assign-IsSpread :
    (base count : ℕ) (key : String × String) (t : PortTable)
    → IsSpread base count t
    → IsSpread base (suc count) (assign key (base + count) t)
unfolding assign
assign-IsSpread base count key [] s = (omega arith, omega arith, tt, tt)
assign-IsSpread base count key ((k, m) ∷ rest) s =
    let below = s.1 in
    if_both (IsSpread base (suc count)) (same_key k key)
      (
        omega arith,
        omega arith,
        IsSpread-IsFresh base count rest s.3,
        IsSpread-more base count rest s.3,
      )
      (
        s.0,
        omega (arith, below),
        assign-IsFresh m (base + count) key rest (omega (arith, below)) s.2,
        assign-IsSpread base count key rest s.3,
      )

pub find_key-IsFresh :
    (n a : ℕ) (key : String × String) (t : PortTable)
    → IsFresh n t
    → find_key key t ≡ some a
    → n ≢ a
unfolding find_key
find_key-IsFresh n a key [] f e = cc
find_key-IsFresh n a key ((k, m) ∷ rest) f e =
    if_cases (λ o. o ≡ some a → n ≢ a) (same_key k key)
      (λ h g. let differs = f.0 in let same : m ≡ a = cc in omega (arith, differs, same))
      (λ h g. find_key-IsFresh n a key rest f.1 g) e

pub find_key-range :
    (base count a : ℕ) (key : String × String) (t : PortTable)
    → IsSpread base count t
    → find_key key t ≡ some a
    → (base ≤ a) × (a < base + count)
unfolding find_key
find_key-range base count a key [] s e = cc
find_key-range base count a key ((k, m) ∷ rest) s e =
    if_cases (λ o. o ≡ some a → (base ≤ a) × (a < base + count)) (same_key k key)
      (λ h g.
        let same : m ≡ a = cc in
        (subst (λ x. base ≤ x) same s.0, subst (λ x. x < base + count) same s.1))
      (λ h g. find_key-range base count a key rest s.3 g) e
