-- ===== src/Prelude/Tests.antt =====
-- Boolean tests on the native numbers, the conditional, and results that may carry an error.
use Prim.Native.Nat.{ℕ, compare, Ordering}
use mathlib.Core.Path.{◌≡◌, refl, sym, ◌∙◌}
use mathlib.Core.Logic.{◌⊎◌, inl, inr}
use mathlib.Core.Bool.{Bool, true, false, ◌||◌, ◌&&◌}
use mathlib.Core.Option.{Option, none, some}

abbrev pub ltb : ℕ → ℕ → Bool
ltb a b = elim (compare a b) [ Ordering.lt ↦ true | _ ↦ false ]

abbrev pub leb : ℕ → ℕ → Bool
leb a b = elim (compare a b) [ Ordering.gt ↦ false | _ ↦ true ]

infix 50 ◌==◌
abbrev pub ◌==◌ : ℕ → ℕ → Bool
a == b = elim (compare a b) [ Ordering.eq ↦ true | _ ↦ false ]

infix 1 if◌then◌else◌
abbrev pub if◌then◌else◌ {ℓ} : {A : Type ℓ} → Bool → A → A → A
if true then x else y = x
if false then x else y = y

pub Bool-cases : (b : Bool) → (b ≡ true) ⊎ (b ≡ false)
Bool-cases true = inl refl
Bool-cases false = inr refl

pub Option-cases {ℓ} : {A : Type ℓ} (o : Option A) → (o ≡ none) ⊎ ((a : A) × (o ≡ some a))
Option-cases none = inl refl
Option-cases (some a) = inr (a, refl)

pub Bool-absurd : {b : Bool} → b ≡ true → b ≡ false → ⊥
Bool-absurd h k = differ (sym h ∙ k)
  where
    differ : true ≡ false → ⊥
    differ e = cc

-- A property of a conditional, from a proof for each branch that may use the test.
pub if_cases {ℓ κ} :
    {T : Type ℓ} (Q : T → Type κ) (test : Bool) {s t : T}
    → (test ≡ true → Q s)
    → (test ≡ false → Q t)
    → Q (if test then s else t)
if_cases Q true on off = on refl
if_cases Q false on off = off refl

pub if_both {ℓ κ} :
    {T : Type ℓ} (Q : T → Type κ) (test : Bool) {s t : T} → Q s → Q t → Q (if test then s else t)
if_both Q test on off = if_cases Q test (λ h. on) (λ h. off)

-- The same for what depends on an option.
pub option_both {ℓ κ μ} :
    {A : Type ℓ} {T : Type κ} (Q : T → Type μ) (o : Option A) {t : T} {f : A → T}
    → Q t
    → ((a : A) → Q (f a))
    → Q (elim o [ none ↦ t | some a ↦ f a ])
option_both Q none without has = without
option_both Q (some a) without has = has a

pub and-true : (a b : Bool) → a && b ≡ true → (a ≡ true) × (b ≡ true)
and-true true b h = (refl, h)
and-true false b h = cc

pub or-true : (a : Bool) → a || true ≡ true
or-true true = refl
or-true false = refl
