-- ===== src/BootFile/Numbers.antt =====
-- The processes of a boot: those of the boot file (rc/control/config_functions_local.py) and the
-- boardreaders (`do_boot_impl` of rc/control/daqinterface.py).
use artdaq_daqinterface.Prelude.{
  ℕ, suc, ◌+◌, String, ◌=ₛ◌, ◌≡◌, refl, sym, ap, subst, ◌∙◌, List, [], ◌∷◌, ◌++◌, length, Dict,
  if_cases, ◌==◌, arith,
}
use mathlib.Core.List.{append_assoc, append-nil}
use artdaq_daqinterface.BootFile.{
  BootOutcome, failed, done, ◌then_do◌, LinePatterns, Ports, Member, BootReading,
  initial_member_dict, initial_subsystem_dict,
}
use artdaq_daqinterface.BootFile.Reading.{
  read_lines, check_counts, get_boot_info, default_subsystems,
}
use artdaq_daqinterface.BootFile.Boardreaders.{boardreader, read_component, add_boardreaders}
use artdaq_daqinterface.BootFile.Ranks.{
  upto, ranks, IsByFormula, AllByFormula, ranks-snoc, IsNumbered, Leaves, read_lines-IsNumbered,
}

check_counts-done :
    (re : LinePatterns) (e : Ports) (r r' : BootReading)
    → check_counts re e r ≡ done r'
    → (r' ≡ r) × (r.num_expected_processes ≡ r.num_actual_processes)
unfolding check_counts
check_counts-done re e r r' h =
    if_cases (λ o. o ≡ done r' → (r' ≡ r) × (r.num_expected_processes ≡ r.num_actual_processes))
      (r.num_expected_processes == r.num_actual_processes) (λ same d. (cc, ground arith))
      (λ same d. cc) h

get_boot_info-IsNumbered :
    (re : LinePatterns) (e : Ports) (lines : List String) (start r : BootReading)
    → start.procinfos ≡ []
    → get_boot_info re e lines start ≡ done r
    → IsNumbered e r × (r.num_expected_processes ≡ r.num_actual_processes)
unfolding get_boot_info
get_boot_info-IsNumbered re e lines start r empty h =
    by_outcome (read_lines re e lines begun)
      (read_lines-IsNumbered re e lines begun
        (record { numbered = rw empty refl; by_formula = rw empty tt }))
      h
  where
    begun : BootReading
    begun = record start {
      member_dict = initial_member_dict;
      subsystem_dict = initial_subsystem_dict;
      num_expected_processes = 0;
      num_actual_processes = 0;
    }

    by_outcome :
        (o : BootOutcome BootReading)
        → Leaves (IsNumbered e) o
        → (o then_do λ x.
            check_counts re e (record x { subsystems = default_subsystems re e x.subsystems }))
          ≡ done r
        → IsNumbered e r × (r.num_expected_processes ≡ r.num_actual_processes)
    by_outcome (failed fault) left d = cc
    by_outcome (done x) left d =
        let x' : BootReading = record x { subsystems = default_subsystems re e x.subsystems } in
        let (same, counts) = check_counts-done re e x' r d in
        subst (λ y. IsNumbered e y × (y.num_expected_processes ≡ y.num_actual_processes)) (sym same)
          (record { numbered = left.numbered; by_formula = left.by_formula }, counts)

-- Each boardreader has its position for its rank.
abbrev HasRank : Ports → ℕ → Member → Type 0
HasRank e rank m = (m.rank ≡ rank) × IsByFormula "-1" e m.port m.rank

of_done :
    (e : Ports) (rank : ℕ) (m m' : Member) → HasRank e rank m → done m ≡ done m' → HasRank e rank m'
of_done e rank m m' h same = subst (HasRank e rank) (inner same) h
  where
    inner : done m ≡ done m' → m ≡ m'
    inner d = cc

boardreader-HasRank :
    (e : Ports) (rank : ℕ) (compname host port subsystem allowed prepend : String)
    → HasRank e rank (boardreader e rank compname host port subsystem allowed prepend)
unfolding boardreader
boardreader-HasRank e rank compname host port subsystem allowed prepend = (
  refl,
  if_cases (λ p. IsByFormula "-1" e p rank) (port =ₛ "-1") (λ left_out. refl) (λ there. there),
)

read_component-HasRank :
    (e : Ports) (rank : ℕ) (compname : String) (values : List String) (m : Member)
    → read_component e rank compname values ≡ done m
    → HasRank e rank m
unfolding read_component
read_component-HasRank e rank compname [] m h = cc
read_component-HasRank e rank compname (a ∷ []) m h = cc
read_component-HasRank e rank compname (a ∷ b ∷ []) m h =
    of_done e rank (boardreader e rank compname a b "1" "-1" "") m
      (boardreader-HasRank e rank compname a b "1" "-1" "") h
read_component-HasRank e rank compname (a ∷ b ∷ c ∷ []) m h =
    of_done e rank (boardreader e rank compname a b c "-1" "") m
      (boardreader-HasRank e rank compname a b c "-1" "") h
read_component-HasRank e rank compname (a ∷ b ∷ c ∷ d ∷ []) m h =
    of_done e rank (boardreader e rank compname a b c d "") m
      (boardreader-HasRank e rank compname a b c d "") h
read_component-HasRank e rank compname (a ∷ b ∷ c ∷ d ∷ p ∷ []) m h =
    of_done e rank (boardreader e rank compname a b c d p) m
      (boardreader-HasRank e rank compname a b c d p) h
read_component-HasRank e rank compname (a ∷ b ∷ c ∷ d ∷ p ∷ x ∷ xs) m h = cc

-- The boardreaders behind the processes that are there already.
abbrev pub Readers : Ports → List Member → List Member → Type 0
Readers e ms ps = (readers : List Member) × (ps ≡ ms ++ readers) × AllByFormula "-1" e readers

add_boardreaders-ranks :
    (e : Ports) (comps : Dict (List String)) (rank : ℕ) (before : List ℕ) (ms ps : List Member)
    → ranks ms ≡ before ++ upto 0 rank
    → add_boardreaders e rank comps ms ≡ done ps
    → (ranks ps ≡ before ++ upto 0 (rank + length comps)) × Readers e ms ps
unfolding add_boardreaders
add_boardreaders-ranks e [] rank before ms ps numbered h = (
  ap ranks (same h)
      ∙ numbered
      ∙ ap (λ k. before ++ upto 0 k) {x = rank} {y = rank + 0} (omega arith),
  ([], same h ∙ sym (append-nil ms), tt),
)
  where
    same : done ms ≡ done ps → ps ≡ ms
    same d = cc
add_boardreaders-ranks e ((compname, values) ∷ comps) rank before ms ps numbered h =
    let again =
      λ (m : Member). add_boardreaders-ranks e comps (suc rank) before (ms ++ m ∷ []) ps in
    by_outcome (read_component e rank compname values)
      (λ m d. read_component-HasRank e rank compname values m d) again h
  where
    Goal : Type 0
    Goal = (ranks ps ≡ before ++ upto 0 (rank + suc (length comps))) × Readers e ms ps

    by_outcome :
        (o : BootOutcome Member)
        → ((m : Member) → o ≡ done m → HasRank e rank m)
        → ((m : Member)
            → ranks (ms ++ m ∷ []) ≡ before ++ upto 0 (suc rank)
            → add_boardreaders e (suc rank) comps (ms ++ m ∷ []) ≡ done ps
            → (ranks ps ≡ before ++ upto 0 (suc rank + length comps)) × Readers e (ms ++ m ∷ []) ps)
        → (o then_do λ m. add_boardreaders e (suc rank) comps (ms ++ m ∷ [])) ≡ done ps
        → Goal
    by_outcome (failed fault) has again d = cc
    by_outcome (done m) has again d =
        let (own, port) = has m refl in
        let (all, (readers, behind, ports)) =
          again m
            (ranks-snoc ms m
              ∙ ap (λ rs. rs ++ m.rank ∷ []) numbered
              ∙ append_assoc before (upto 0 rank) (m.rank ∷ [])
              ∙ ap (λ k. before ++ (upto 0 rank ++ k ∷ [])) (own ∙ omega arith))
            d in
        let as_far : suc rank + length comps ≡ rank + suc (length comps) = omega arith in
        (
          all ∙ ap (λ k. before ++ upto 0 k) as_far,
          (m ∷ readers, behind ∙ append_assoc ms (m ∷ []) readers, (port, ports)),
        )

-- After a boot that reads its file and all components without an exception, the processes of the
-- file have the ranks behind those of the boardreaders, the boardreaders the ranks from 0 on. A port
-- that was left out, as "not set" in the file and as "-1" for a boardreader, is by the one formula:
-- no process has such a text for its port. The hosts named are as many as the processes.
pub boot_processes_numbered :
    (re : LinePatterns) (e : Ports) (lines : List String) (start r : BootReading)
    (comps : Dict (List String)) (ps : List Member)
    → start.procinfos ≡ []
    → length comps ≡ e.num_components
    → get_boot_info re e lines start ≡ done r
    → add_boardreaders e 0 comps r.procinfos ≡ done ps
    → (ranks ps ≡ upto e.num_components r.num_actual_processes ++ upto 0 e.num_components)
      × AllByFormula "not set" e r.procinfos
      × Readers e r.procinfos ps
      × (r.num_expected_processes ≡ r.num_actual_processes)
boot_processes_numbered re e lines start r comps ps empty count read added =
    let (n, counts) = get_boot_info-IsNumbered re e lines start r empty read in
    let before = upto e.num_components r.num_actual_processes in
    let (all, readers) =
      add_boardreaders-ranks e comps 0 before r.procinfos ps (n.numbered ∙ sym (append-nil before))
        added in
    let as_many : 0 + length comps ≡ e.num_components = omega (arith, count) in
    (all ∙ ap (λ k. before ++ upto 0 k) as_many, n.by_formula, readers, counts)
