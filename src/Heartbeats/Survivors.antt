-- ===== src/Heartbeats/Survivors.antt =====
-- rc/control/manage_processes_direct.py, `check_proc_heartbeats_base`: a running system keeps the
-- processes that are found.
use artdaq_daqinterface.Prelude.{
  String, ◌=ₛ◌, ◌≡◌, refl, sym, ap, ◌∙◌, Bool, true, false, not, ◌&&◌, List, [], ◌∷◌, map, isin,
  length, ◌==◌, inl, inr, ◌↔◌, if◌then◌else◌, if_both, Bool-cases, Bool-absurd, and-true, eq_iff,
  eq_refl, Memᴰ, select, IsDistinct, arith,
}
use mathlib.Core.List.Memᴰ
use artdaq_daqinterface.Procinfo.{Procinfo}
use artdaq_daqinterface.Boot.{set_of}
use artdaq_daqinterface.Requirements.{Searches, Requirement}
use artdaq_daqinterface.Requirements.Counting.{AllMet}
use artdaq_daqinterface.Heartbeats.{
  quiet, miscounted, Heard, is_found, sweep, found_on_hosts, procinfos_to_remove, remove_all,
  check_proc_heartbeats, is_none,
}
use artdaq_daqinterface.Heartbeats.Remaining.{
  labels, Mem-select, isin-labels, IsDistinct-same, Mem-remove_all,
}
use artdaq_daqinterface.Heartbeats.Met.{gone_with, remove_all-AllMet}
use artdaq_daqinterface.Wiring.Members.{Mem-append}

isin-set_of : (x : String) (xs : List String) → isin x (set_of xs) ≡ isin x xs
unfolding set_of isin
isin-set_of x [] = refl
isin-set_of x (y ∷ ys) = ground (arith, isin-set_of x ys, isin-set_of y ys, eq_iff y x)

isin-hosts :
    {p : Procinfo} (ps : List Procinfo) → Memᴰ p ps → isin p.host (map (λ q. q.host) ps) ≡ true
unfolding isin
isin-hosts [] m = absurd (Memᴰ.not-nil m)
isin-hosts {p} (q ∷ ps) (Memᴰ.head e) = rw (ap (λ x. x.host) (sym e)) (rw (eq_refl p.host) refl)
isin-hosts (q ∷ ps) (Memᴰ.tail m) = ground (arith, isin-hosts ps m)

labels-isin :
    (l : String) (ps : List Procinfo)
    → isin l (labels ps) ≡ true
    → (q : Procinfo) × Memᴰ q ps × (q.label ≡ l)
unfolding isin
labels-isin l [] h = cc
labels-isin l (q ∷ ps) h = elim (Bool-cases (q.label =ₛ l)) [
  | inl same ↦ (q, Memᴰ.head refl, (eq_iff q.label l).0 same)
  | inr differs ↦
      let (r, listed, same) = labels-isin l ps (ground (arith, h, differs)) in
      (r, Memᴰ.tail listed, same)
]

module _ (labels_on_host : List Procinfo → String → List String) (suffix : String) where
  Mem-sweep :
      {p : Procinfo} (wanted : Procinfo → Bool) (ps : List Procinfo) (hosts : List String)
      → Memᴰ p (sweep labels_on_host suffix wanted ps hosts)
        ↔ (Memᴰ p ps × (wanted p ≡ true) × (isin p.host hosts ≡ true))
  unfolding sweep isin
  Mem-sweep wanted ps [] = (λ m. absurd (Memᴰ.not-nil m), λ k. cc)
  Mem-sweep {p} wanted ps (host ∷ hosts) =
      let here = λ (q : Procinfo). (q.host =ₛ host) && wanted q in
      let chosen = Mem-select {x = p} here ps in
      let again = Mem-sweep {p = p} wanted ps hosts in
      let both =
        Mem-append {x = p} (select here ps) (sweep labels_on_host suffix wanted ps hosts) in
      let listed_here = λ (l : Memᴰ p ps) (w : wanted p ≡ true) (h : p.host =ₛ host ≡ true).
        both.1 (inl (chosen.1 (l, ground (arith, w, h)))) in
      (
        λ m. elim (both.0 m) [
          | inl n ↦
              let (listed, h) = chosen.0 n in
              let (at, want) = and-true (p.host =ₛ host) (wanted p) h in
              (listed, want, ground (arith, at, eq_iff p.host host, eq_iff host p.host))
          | inr n ↦ let (listed, want, i) = again.0 n in (listed, want, ground (arith, i))
        ],
        λ k. elim (Bool-cases (p.host =ₛ host)) [
          | inl at ↦ listed_here k.0 k.1 at
          | inr away ↦
              let i = k.2 in
              both.1 (
                inr (
                  again.1
                    (k.0, k.1, ground (arith, i, away, eq_iff p.host host, eq_iff host p.host))))
        ],
      )

  -- The sweep over all hosts selects by the test alone.
  Mem-sweep_all :
      {p : Procinfo} (wanted : Procinfo → Bool) (ps : List Procinfo)
      → Memᴰ p (sweep labels_on_host suffix wanted ps (set_of (map (λ q. q.host) ps)))
        ↔ (Memᴰ p ps × (wanted p ≡ true))
  Mem-sweep_all {p} wanted ps =
      let hosts = map (λ (q : Procinfo). q.host) ps in
      let swept = Mem-sweep {p = p} wanted ps (set_of hosts) in
      (
        λ m. let (listed, want, i) = swept.0 m in (listed, want),
        λ k. swept.1 (k.0, k.1, isin-set_of p.host hosts ∙ isin-hosts ps k.0),
      )

  Mem-procinfos_to_remove :
      {p : Procinfo} (ps : List Procinfo)
      → Memᴰ p (procinfos_to_remove labels_on_host suffix ps)
        ↔ (Memᴰ p ps × (is_found labels_on_host suffix ps p ≡ false))
  unfolding procinfos_to_remove
  Mem-procinfos_to_remove {p} ps =
      let swept = Mem-sweep_all {p = p} (λ q. not (is_found labels_on_host suffix ps q)) ps in
      (
        λ m. let (listed, h) = swept.0 m in (listed, ground (arith, h)),
        λ k. let h = k.1 in swept.1 (k.0, ground (arith, h)),
      )

  isin-procinfos_to_remove :
      {p : Procinfo} (ps : List Procinfo)
      → IsDistinct (labels ps)
      → Memᴰ p ps
      → (isin p.label (labels (procinfos_to_remove labels_on_host suffix ps)) ≡ false)
        ↔ (is_found labels_on_host suffix ps p ≡ true)
  isin-procinfos_to_remove {p} ps d m = (λ h. found h, λ h. unlisted h)
    where
      lost : List Procinfo
      lost = procinfos_to_remove labels_on_host suffix ps

      found : isin p.label (labels lost) ≡ false → is_found labels_on_host suffix ps p ≡ true
      found h = elim (Bool-cases (is_found labels_on_host suffix ps p)) [
        | inl yes_found ↦ yes_found
        | inr not_found ↦
            absurd
              (Bool-absurd (isin-labels lost ((Mem-procinfos_to_remove ps).1 (m, not_found))) h)
      ]

      unlisted : is_found labels_on_host suffix ps p ≡ true → isin p.label (labels lost) ≡ false
      unlisted h = elim (Bool-cases (isin p.label (labels lost))) [
        | inl listed ↦
            let (q, gone, same) = labels-isin p.label lost listed in
            let (q_listed, not_found) = (Mem-procinfos_to_remove ps).0 gone in
            absurd (
              Bool-absurd h (
                ap (is_found labels_on_host suffix ps) (IsDistinct-same ps d m q_listed (sym same))
                ∙ not_found))
        | inr clear ↦ clear
      ]

-- Where the labels are distinct and the requirements met, and the check of a running system raises no
-- exception, exactly the processes that are found are left, and the requirements are met with the
-- others counted as lost.
pub heartbeats_keep_found :
    (re : Searches) (labels_on_host : List Procinfo → String → List String) (suffix : String)
    (ps : List Procinfo) (reqs : List Requirement) (p : Procinfo)
    → IsDistinct (labels ps)
    → AllMet re [] reqs
    → (check_proc_heartbeats re labels_on_host suffix true "running" ps reqs).pulse ≡ quiet
    → let heard = check_proc_heartbeats re labels_on_host suffix true "running" ps reqs in
      (Memᴰ p heard.procinfos ↔ (Memᴰ p ps × (is_found labels_on_host suffix ps p ≡ true)))
      × AllMet re (gone_with (procinfos_to_remove labels_on_host suffix ps) []) heard.requirements
unfolding check_proc_heartbeats
heartbeats_keep_found re labels_on_host suffix ps reqs p distinct met calm =
    by_lost (procinfos_to_remove labels_on_host suffix ps)
      (λ m. isin-procinfos_to_remove labels_on_host suffix ps distinct m) calm
  where
    found : List Procinfo
    found = found_on_hosts labels_on_host suffix ps

    unchanged : Heard
    unchanged = record {
      procinfos = ps;
      requirements = reqs;
      pulse = quiet;
      found_processes = found;
    }

    heard_with : List Procinfo → Heard
    heard_with lost =
        let (left, reqs', pulse) = remove_all re lost ps reqs in
        let all_ok : Heard =
          if length found == length ps
          then unchanged
          else record unchanged { pulse = miscounted } in
        if is_none lost then all_ok else record {
          procinfos = left;
          requirements = reqs';
          pulse = pulse;
          found_processes = found;
        }

    Kept : List Procinfo → Heard → Type 0
    Kept lost heard =
        (Memᴰ p heard.procinfos ↔ (Memᴰ p ps × (is_found labels_on_host suffix ps p ≡ true)))
        × AllMet re (gone_with lost []) heard.requirements

    by_lost :
        (lost : List Procinfo)
        → (Memᴰ p ps
            → (isin p.label (labels lost) ≡ false) ↔ (is_found labels_on_host suffix ps p ≡ true))
        → (heard_with lost).pulse ≡ quiet
        → Kept lost (heard_with lost)
    by_lost [] same e =
        let all : Memᴰ p ps ↔ (Memᴰ p ps × (is_found labels_on_host suffix ps p ≡ true)) =
          (λ m. (m, (same m).0 (nothing p.label)), λ k. k.0) in
        if_both (λ heard. Kept [] heard) (length found == length ps) (all, met) (all, met)
      where
        nothing : (l : String) → isin l [] ≡ false
        nothing l = refl
    by_lost (q ∷ lost) same e =
        let left = Mem-remove_all {p = p} re (q ∷ lost) ps reqs distinct e in
        (
          (
            λ m. let (listed, clear) = left.0 m in (listed, (same listed).0 clear),
            λ k. left.1 (k.0, (same k.0).1 k.1),
          ),
          remove_all-AllMet re (q ∷ lost) ps reqs [] met e,
        )
