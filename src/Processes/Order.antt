-- ===== src/Processes/Order.antt =====
-- rc/control/daqinterface.py, `Procinfo.__lt__`: it is a strict order of the known processes.
use artdaq_daqinterface.Prelude.{
  ℕ, suc, String, ◌=ₛ◌, ◌==◌, ◌||◌, ◌&&◌, ◌≡◌, ◌≢◌, refl, sym, ap, ◌∙◌, inl, inr, false, Option,
  none, some, List, [], ◌∷◌, ltb, Bool-cases, arith, eq_iff,
}
use artdaq_daqinterface.Procinfo.{Procinfo}
use artdaq_daqinterface.Processes.{processes_upstream_to_downstream, one_later, index, is_upstream}

some-inj : (a b : ℕ) → some a ≡ some b → a ≡ b
some-inj a b h = cc

one_later-some :
    (o : Option ℕ) (n : ℕ) → one_later o ≡ some n → (m : ℕ) × (o ≡ some m) × (n ≡ suc m)
one_later-some none n h = cc
one_later-some (some m) n h = let same : n ≡ suc m = cc in (m, refl, same)

index-inj :
    (a b : String) (xs : List String) (n : ℕ) → index a xs ≡ some n → index b xs ≡ some n → a ≡ b
unfolding index
index-inj a b [] n h k = cc
index-inj a b (x ∷ xs) n h k = elim (Bool-cases (x =ₛ a)) [
  | inl is_a ↦ elim (Bool-cases (x =ₛ b)) [
    | inl is_b ↦ sym ((eq_iff x a).0 is_a) ∙ (eq_iff x b).0 is_b
    | inr not_b ↦
        let first : some 0 ≡ some n = rw is_a at h in
        let (m, e, f) = one_later-some (index b xs) n (rw not_b at k) in
        absurd (omega (arith, f, some-inj 0 n first))
  ]
  | inr not_a ↦
      let (m, e, f) = one_later-some (index a xs) n (rw not_a at h) in
      elim (Bool-cases (x =ₛ b)) [
        | inl is_b ↦
            let first : some 0 ≡ some n = rw is_b at k in
            absurd (omega (arith, f, some-inj 0 n first))
        | inr not_b ↦
            let (m', e', f') = one_later-some (index b xs) n (rw not_b at k) in
            let same : m' ≡ m = omega (arith, f, f') in
            index-inj a b xs m e (e' ∙ ap (λ i. some i) same)
      ]
]

-- Of known processes, one stands before another where its type comes earlier, or where the types
-- are the same and its port is smaller.
pub is_upstream_orders :
    (p q : Procinfo) (i j : ℕ)
    → index p.name processes_upstream_to_downstream ≡ some i
    → index q.name processes_upstream_to_downstream ≡ some j
    → is_upstream p q ≡ some (ltb i j || ((i == j) && ltb p.port_number q.port_number))
unfolding is_upstream
is_upstream_orders p q i j at_i at_j = elim (Bool-cases (p.name =ₛ q.name)) [
  | inl same ↦
      let e = (eq_iff p.name q.name).0 same in
      let equal : i ≡ j =
        some-inj i j (sym at_i ∙ ap (λ n. index n processes_upstream_to_downstream) e ∙ at_j) in
      let answer : ltb p.port_number q.port_number
          ≡ ltb i j || ((i == j) && ltb p.port_number q.port_number) =
        ground (arith, equal) in
      rw (same, is_upstream) (ap (λ b. some b) answer)
  | inr other ↦
      let apart : i ≢ j = λ e. differ other (
        index-inj p.name q.name processes_upstream_to_downstream j (at_i ∙ ap (λ n. some n) e)
          at_j) in
      let answer : ltb i j ≡ ltb i j || ((i == j) && ltb p.port_number q.port_number) =
        ground (arith, apart) in
      rw (other, at_i, at_j, is_upstream) (ap (λ b. some b) answer)
]
  where
    differ : (p.name =ₛ q.name) ≡ false → p.name ≡ q.name → ⊥
    differ h e = let yes = (eq_iff p.name q.name).1 e in cc
