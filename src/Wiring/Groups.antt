-- ===== src/Wiring/Groups.antt =====
-- rc/control/bookkeeping.py: `_procinfos_by_ss_type` against a scan of the processes.
use artdaq_daqinterface.Prelude.{
  String, ◌≡◌, refl, sym, ap, ◌∙◌, Bool, true, false, List, [], ◌∷◌, ◌++◌, if◌then◌else◌, eq_iff,
  arith,
}
use mathlib.Core.List.{append_assoc, append-nil}
use artdaq_daqinterface.Procinfo.{Procinfo}
use artdaq_daqinterface.Wiring.{
  Wiring, Groups, same_key, key_of, append_to, group_all, group_of, procinfos_by_ss_type,
  sorted_by_rank,
}

-- The processes of a subsystem and a type, by a scan of all.
unfoldable pub scan : String × String → List Procinfo → List Procinfo
scan key [] = []
scan key (p ∷ ps) = let rest = scan key ps in if same_key (key_of p) key then p ∷ rest else rest

group_of-append_to :
    (key k : String × String) (p : Procinfo) (groups : Groups)
    → group_of key (append_to k p groups)
      ≡ (if same_key k key then group_of key groups ++ p ∷ [] else group_of key groups)
unfolding group_of append_to
group_of-append_to key k p [] = refl
group_of-append_to key k p ((j, ps) ∷ rest) =
    let again = group_of-append_to key k p rest in
    grind (
      arith,
      again,
      eq_iff j.0 k.0,
      eq_iff j.1 k.1,
      eq_iff j.0 key.0,
      eq_iff j.1 key.1,
      eq_iff k.0 key.0,
      eq_iff k.1 key.1,
    )

group_of-group_all :
    (key : String × String) (ps : List Procinfo) (groups : Groups)
    → group_of key (group_all ps groups) ≡ group_of key groups ++ scan key ps
unfolding group_all scan
group_of-group_all key [] groups = sym (append-nil (group_of key groups))
group_of-group_all key (p ∷ ps) groups =
    let again = group_of-group_all key ps (append_to (key_of p) p groups) in
    again
    ∙ ap (λ gs. gs ++ scan key ps) (group_of-append_to key (key_of p) p groups)
    ∙ by_case (same_key (key_of p) key)
  where
    by_case :
        (same : Bool)
        → (if same then group_of key groups ++ p ∷ [] else group_of key groups) ++ scan key ps
          ≡ group_of key groups ++ (if same then p ∷ scan key ps else scan key ps)
    by_case true = append_assoc (group_of key groups) (p ∷ []) (scan key ps)
    by_case false = refl

-- The table of processes by subsystem and type has, under each key, what a scan of all processes in
-- the order of their ranks selects.
pub procinfos_by_ss_type-scan :
    (w : Wiring) (key : String × String)
    → group_of key (procinfos_by_ss_type w) ≡ scan key (sorted_by_rank w.procinfos)
unfolding procinfos_by_ss_type group_of
procinfos_by_ss_type-scan w key = group_of-group_all key (sorted_by_rank w.procinfos) []
