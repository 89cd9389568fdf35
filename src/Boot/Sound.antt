-- ===== src/Boot/Sound.antt =====
-- rc/control/daqinterface.py, `check_boot_info`: what a boot that passes the check satisfies.
use artdaq_daqinterface.Prelude.{
  ℕ, suc, ◌≤◌, String, ◌≡◌, refl, ap, ◌∙◌, ◌↔◌, inl, inr, Bool, true, false, Option, none, some,
  List, [], ◌∷◌, Dict, lookup, isin, length, ltb, Bool-cases, arith, IsDistinct,
}
use artdaq_daqinterface.Procinfo.{Procinfo}
use artdaq_daqinterface.Bookkeeping.Graph.{Subsystem}
use artdaq_daqinterface.Boot.{
  BootFault, BootInfo, num_requested_routingmanagers, set_of, labels, or_then, source_fault,
  destination_fault, destination_faults, script_fault, level_fault, setup_fault, check_boot_info,
}

length-set_of : (xs : List String) → length (set_of xs) ≤ length xs
unfolding set_of
length-set_of [] = omega arith
length-set_of (x ∷ xs) = ground (arith, length-set_of xs)

set_of-IsDistinct :
    (xs : List String) → ltb (length (set_of xs)) (length xs) ≡ false → IsDistinct xs
unfolding set_of
set_of-IsDistinct [] h = tt
set_of-IsDistinct (x ∷ xs) h = elim (Bool-cases (isin x xs)) [
  | inl seen ↦ absurd (ground (arith, length-set_of xs, rw seen at h))
  | inr new ↦ (new, set_of-IsDistinct xs (ground (arith, rw new at h)))
]

IsDistinct-set_of : (xs : List String) → IsDistinct xs → length (set_of xs) ≡ length xs
unfolding set_of
IsDistinct-set_of [] d = refl
IsDistinct-set_of (x ∷ xs) d = rw d.0 (ap suc (IsDistinct-set_of xs d.1))

length-labels : (ps : List Procinfo) → length (labels ps) ≡ length ps
length-labels [] = refl
length-labels (p ∷ ps) = ap suc (length-labels ps)

-- The destination of a subsystem is a subsystem that has it among its sources.
pub record IsMirrored (g : Dict Subsystem) (ss dest : String) : Type 0 where
  pub at_end : Subsystem
  pub known : lookup dest g ≡ some at_end
  pub is_source : isin ss at_end.sources ≡ true

abbrev pub Mirrored : Dict Subsystem → String → Option String → Type 0
Mirrored g ss none = Unit
Mirrored g ss (some dest) = IsMirrored g ss dest

abbrev pub AllMirrored : Dict Subsystem → Dict Subsystem → Type 0
AllMirrored g [] = Unit
AllMirrored g ((ss, sub) ∷ rest) = Mirrored g ss sub.destination × AllMirrored g rest

or_then-none : (a b : Option BootFault) → or_then a b ≡ none → (a ≡ none) × (b ≡ none)
or_then-none none b h = (refl, h)
or_then-none (some e) b h = cc

module _ (g : Dict Subsystem) where
  source_fault-none :
      (ss dest : String) (o : Option Subsystem)
      → lookup dest g ≡ o
      → source_fault ss dest o ≡ none
      → IsMirrored g ss dest
  unfolding source_fault
  source_fault-none ss dest none at h = cc
  source_fault-none ss dest (some sub) at h = elim (Bool-cases (isin ss sub.sources)) [
    | inl found ↦ record { at_end = sub; known = at; is_source = found }
    | inr missing ↦ absurd (cc (rw missing at h))
  ]

  destination_fault-none :
      (ss : String) (d : Option String) → destination_fault g ss d ≡ none → Mirrored g ss d
  unfolding destination_fault
  destination_fault-none ss none h = tt
  destination_fault-none ss (some dest) h = source_fault-none ss dest (lookup dest g) refl h

  Mirrored-destination_fault :
      (ss : String) (d : Option String) → Mirrored g ss d → destination_fault g ss d ≡ none
  unfolding destination_fault source_fault
  Mirrored-destination_fault ss none m = refl
  Mirrored-destination_fault ss (some dest) m = rw m.known (rw m.is_source refl)

  destination_faults-none :
      (rest : Dict Subsystem) → destination_faults g rest ≡ none → AllMirrored g rest
  unfolding destination_faults
  destination_faults-none [] h = tt
  destination_faults-none ((ss, sub) ∷ rest) h =
      let (now, later) = or_then-none _ _ h in
      (destination_fault-none ss sub.destination now, destination_faults-none rest later)

  AllMirrored-destination_faults :
      (rest : Dict Subsystem) → AllMirrored g rest → destination_faults g rest ≡ none
  unfolding destination_faults
  AllMirrored-destination_faults [] m = refl
  AllMirrored-destination_faults ((ss, sub) ∷ rest) m =
      rw (Mirrored-destination_fault ss sub.destination m.0)
        (AllMirrored-destination_faults rest m.1)

-- What the check asks for.
pub record IsBootable (exists : String → Bool) (b : BootInfo) : Type 0 where
  pub script : String
  pub script_defined : b.daq_setup_script ≡ some script
  pub level : ℕ
  pub level_defined : b.debug_level ≡ some level
  pub script_there : exists script ≡ true
  pub routingmanagers : num_requested_routingmanagers b.procinfos ≤ length b.subsystems
  pub distinct : IsDistinct (labels b.procinfos)
  pub mirrored : AllMirrored b.subsystems b.subsystems

module _ (exists : String → Bool) (b : BootInfo) where
  script_fault-none :
      (script : String)
      → script_fault exists b script ≡ none
      → (exists script ≡ true)
        × (num_requested_routingmanagers b.procinfos ≤ length b.subsystems)
        × IsDistinct (labels b.procinfos)
        × AllMirrored b.subsystems b.subsystems
  unfolding script_fault
  script_fault-none script h = elim (Bool-cases (exists script)) [
    | inr none_there ↦ absurd (cc (rw none_there at h))
    | inl there ↦
        let wanted = num_requested_routingmanagers b.procinfos in
        elim (Bool-cases (ltb (length b.subsystems) wanted)) [
          | inl many ↦ absurd (cc (rw (there, many) at h))
          | inr few ↦
              elim (Bool-cases (ltb (length (set_of (labels b.procinfos))) (length b.procinfos))) [
                | inl twice ↦ absurd (cc (rw (there, few, twice) at h))
                | inr once ↦ (
                  there,
                  ground (arith, few),
                  set_of-IsDistinct (labels b.procinfos) (rw (length-labels b.procinfos) once),
                  destination_faults-none b.subsystems b.subsystems (rw (there, few, once) at h),
                )
              ]
        ]
  ]

  IsBootable-script_fault : (r : IsBootable exists b) → script_fault exists b r.script ≡ none
  unfolding script_fault
  IsBootable-script_fault r =
      rw
        (
          r.script_there,
          few,
          once,
          AllMirrored-destination_faults b.subsystems b.subsystems r.mirrored,
        )
        refl
    where
      few : ltb (length b.subsystems) (num_requested_routingmanagers b.procinfos) ≡ false
      few = ground (arith, r.routingmanagers)

      same : length (set_of (labels b.procinfos)) ≡ length b.procinfos
      same = IsDistinct-set_of (labels b.procinfos) r.distinct ∙ length-labels b.procinfos

      once : ltb (length (set_of (labels b.procinfos))) (length b.procinfos) ≡ false
      once = rw same (ground arith)

  setup_fault-none :
      (s : Option String) (l : Option ℕ)
      → b.daq_setup_script ≡ s
      → b.debug_level ≡ l
      → setup_fault exists b s ≡ none
      → IsBootable exists b
  unfolding setup_fault level_fault
  setup_fault-none none l at lev h = cc
  setup_fault-none (some script) none at lev h = absurd (cc (rw lev at h))
  setup_fault-none (some script) (some n) at lev h =
      let (there, few, distinct, mirrored) = script_fault-none script (rw lev at h) in
      record {
        script = script;
        script_defined = at;
        level = n;
        level_defined = lev;
        script_there = there;
        routingmanagers = few;
        distinct = distinct;
        mirrored = mirrored;
      }

  IsBootable-setup_fault : IsBootable exists b → check_boot_info exists b ≡ none
  unfolding check_boot_info setup_fault level_fault
  IsBootable-setup_fault r = rw r.script_defined (rw r.level_defined (IsBootable-script_fault r))

  -- The check raises no exception exactly where the setup script is defined and there, the debug
  -- level is defined, there are no more RoutingManagers than subsystems, the labels are distinct,
  -- and the destination of each subsystem has it among its sources.
  pub check_boot_info_decides : (check_boot_info exists b ≡ none) ↔ IsBootable exists b
  unfolding check_boot_info
  check_boot_info_decides =
      (setup_fault-none b.daq_setup_script b.debug_level refl refl, IsBootable-setup_fault)
