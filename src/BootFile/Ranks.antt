-- ===== src/BootFile/Ranks.antt =====
-- The ranks and ports of the processes of a boot file and of the requested components, for
-- rc/control/config_functions_local.py and `do_boot_impl` of rc/control/daqinterface.py.
use artdaq_daqinterface.Prelude.{
  ℕ, zero, suc, ◌+◌, ◌-◌, String, ◌=ₛ◌, ◌≡◌, refl, ap, ◌∙◌, Bool, true, false, ◌||◌, List, [], ◌∷◌,
  ◌++◌, if_both, if_cases, option_both, occurs, arith,
}
use artdaq_daqinterface.BootFile.{
  BootOutcome, failed, done, ◌then_do◌, LinePatterns, Ports, Port, given, formatted, Member,
  BootReading, default_port, is_filled, is_filled_member, text_of,
}
use artdaq_daqinterface.BootFile.Reading.{
  member_of, flush_member, flush_subsystem, flush, note_subsystem, note_member, note_overwrite,
  read_entry, read_flag, read_setting, read_line, read_lines,
}

-- The numbers from `start` on, `count` of them.
abbrev pub upto : ℕ → ℕ → List ℕ
upto start zero = []
upto start (suc count) = upto start count ++ (start + count) ∷ []

abbrev pub ranks : List Member → List ℕ
ranks [] = []
ranks (m ∷ ms) = m.rank ∷ ranks ms

-- A port that was left out is by the formula, with the process's rank; `marker` stands for a port that
-- was left out, so that no port is the text itself.
abbrev pub IsByFormula : String → Ports → Port → ℕ → Type 0
IsByFormula marker e (given text) rank = (text =ₛ marker) ≡ false
IsByFormula marker e (formatted n) rank = n ≡ default_port e rank

abbrev pub AllByFormula : String → Ports → List Member → Type 0
AllByFormula marker e [] = Unit
AllByFormula marker e (m ∷ ms) = IsByFormula marker e m.port m.rank × AllByFormula marker e ms

pub ranks-snoc : (ms : List Member) (m : Member) → ranks (ms ++ m ∷ []) ≡ ranks ms ++ m.rank ∷ []
ranks-snoc [] m = refl
ranks-snoc (n ∷ ms) m = ap (λ rs. n.rank ∷ rs) (ranks-snoc ms m)

AllByFormula-snoc :
    (marker : String) (e : Ports) (ms : List Member) (m : Member)
    → AllByFormula marker e ms
    → IsByFormula marker e m.port m.rank
    → AllByFormula marker e (ms ++ m ∷ [])
AllByFormula-snoc marker e [] m all here = (here, tt)
AllByFormula-snoc marker e (n ∷ ms) m all here = (all.0, AllByFormula-snoc marker e ms m all.1 here)

-- The processes read so far have the ranks behind those of the components.
pub record IsNumbered (e : Ports) (r : BootReading) : Type 0 where
  pub numbered : ranks r.procinfos ≡ upto e.num_components r.num_actual_processes
  pub by_formula : AllByFormula "not set" e r.procinfos

-- An outcome that is a reading has the property.
abbrev pub Leaves : (BootReading → Type 0) → BootOutcome BootReading → Type 0
Leaves P (failed fault) = Unit
Leaves P (done r) = P r

Leaves-then :
    (P : BootReading → Type 0) (first : BootOutcome BootReading)
    (next : BootReading → BootOutcome BootReading)
    → Leaves P first
    → ((r : BootReading) → P r → Leaves P (next r))
    → Leaves P (first then_do next)
Leaves-then P (failed fault) next left later = tt
Leaves-then P (done r) next left later = later r left

module _ (re : LinePatterns) (e : Ports) where
  flush_member-IsNumbered : (r : BootReading) → IsNumbered e r → IsNumbered e (flush_member re e r)
  unfolding flush_member member_of
  flush_member-IsNumbered r h =
      if_both (λ x. IsNumbered e x) (is_filled_member r.member_dict)
        (record {
          numbered =
              ranks-snoc r.procinfos (member_of re e rank r.member_dict)
              ∙ ap (λ rs. rs ++ rank ∷ []) h.numbered
              ∙ ap (λ k. upto e.num_components r.num_actual_processes ++ k ∷ []) next;
          by_formula =
              AllByFormula-snoc "not set" e r.procinfos (member_of re e rank r.member_dict)
                h.by_formula
                (if_cases (λ port. IsByFormula "not set" e port rank)
                  (text_of "port" r.member_dict =ₛ "not set") (λ left_out. refl) (λ there. there));
        })
        h
    where
      rank : ℕ
      rank = e.num_components + suc r.num_actual_processes - 1

      next : rank ≡ e.num_components + r.num_actual_processes
      next = omega arith

  flush_subsystem-IsNumbered :
      (r : BootReading) → IsNumbered e r → IsNumbered e (flush_subsystem re e r)
  unfolding flush_subsystem
  flush_subsystem-IsNumbered r h =
      if_both (λ x. IsNumbered e x) (is_filled r.subsystem_dict)
        (record { numbered = h.numbered; by_formula = h.by_formula }) h

  flush-IsNumbered :
      (is_last : Bool) (line : String) (r : BootReading)
      → IsNumbered e r
      → IsNumbered e (flush re e is_last line r)
  unfolding flush
  flush-IsNumbered is_last line r h =
      if_both (λ x. IsNumbered e x) (re.is_comment line || re.is_blank line || is_last)
        (flush_member-IsNumbered (flush_subsystem re e r) (flush_subsystem-IsNumbered r h)) h

  note_member-IsNumbered :
      (line : String) (r : BootReading) → IsNumbered e r → IsNumbered e (note_member re e line r)
  unfolding note_member
  note_member-IsNumbered line r h =
      if_both (λ x. IsNumbered e x)
        (occurs "EventBuilder" line
          || occurs "DataLogger" line
          || occurs "Dispatcher" line
          || occurs "RoutingManager" line)
        (option_both (λ x. IsNumbered e x) (re.member_entry line) h
          (λ entry. record { numbered = h.numbered; by_formula = h.by_formula }))
        h

  note_overwrite-IsNumbered :
      (line : String) (r : BootReading) → IsNumbered e r → IsNumbered e (note_overwrite re e line r)
  unfolding note_overwrite
  note_overwrite-IsNumbered line r h =
      option_both (λ x. IsNumbered e x) (re.overwrite line) h
        (λ entry. record { numbered = h.numbered; by_formula = h.by_formula })

  note_subsystem-IsNumbered :
      (line : String) (r : BootReading)
      → IsNumbered e r
      → Leaves (IsNumbered e) (note_subsystem re e line r)
  unfolding note_subsystem
  note_subsystem-IsNumbered line r h =
      if_both (λ o. Leaves (IsNumbered e) o) (occurs "Subsystem" line)
        (option_both (λ o. Leaves (IsNumbered e) o) (re.subsystem_entry line) tt
          (λ entry. record { numbered = h.numbered; by_formula = h.by_formula }))
        h

  read_entry-IsNumbered :
      (is_last : Bool) (line : String) (r : BootReading)
      → IsNumbered e r
      → Leaves (IsNumbered e) (read_entry re e is_last line r)
  unfolding read_entry
  read_entry-IsNumbered is_last line r h =
      Leaves-then (IsNumbered e) (note_subsystem re e line r) _ (note_subsystem-IsNumbered line r h)
        (λ x g. flush-IsNumbered is_last line (note_overwrite re e line (note_member re e line x)) (
          note_overwrite-IsNumbered line (note_member re e line x)
            (note_member-IsNumbered line x g)))

  read_flag-IsNumbered :
      (is_last : Bool) (line : String) (r : BootReading)
      → IsNumbered e r
      → Leaves (IsNumbered e) (read_flag re e is_last line r)
  unfolding read_flag
  read_flag-IsNumbered is_last line r h =
      let Kept = λ (o : BootOutcome BootReading). Leaves (IsNumbered e) o in
      if_both Kept (re.manages line) (record { numbered = h.numbered; by_formula = h.by_formula })
        (if_both Kept (re.manages_not line)
          (record { numbered = h.numbered; by_formula = h.by_formula })
          (if_both Kept (re.disables_recovery line)
            (record { numbered = h.numbered; by_formula = h.by_formula })
            (if_both Kept (re.enables_recovery line)
              (record { numbered = h.numbered; by_formula = h.by_formula })
              (read_entry-IsNumbered is_last line r h))))

  read_setting-IsNumbered :
      (is_last : Bool) (line : String) (r : BootReading)
      → IsNumbered e r
      → Leaves (IsNumbered e) (read_setting re e is_last line r)
  unfolding read_setting
  read_setting-IsNumbered is_last line r h =
      let Kept = λ (o : BootOutcome BootReading). Leaves (IsNumbered e) o in
      option_both Kept (re.daq_setup_script line)
        (option_both Kept (re.request_address line)
          (option_both Kept (re.debug_level line) (read_flag-IsNumbered is_last line r h) (λ text.
            option_both Kept (re.int text) tt
              (λ n. record { numbered = h.numbered; by_formula = h.by_formula })))
          (λ address. record { numbered = h.numbered; by_formula = h.by_formula }))
        (λ script. record { numbered = h.numbered; by_formula = h.by_formula })

  read_line-IsNumbered :
      (is_last : Bool) (line : String) (r : BootReading)
      → IsNumbered e r
      → Leaves (IsNumbered e) (read_line re e is_last line r)
  unfolding read_line
  read_line-IsNumbered is_last line r h =
      let Kept = λ (o : BootOutcome BootReading). Leaves (IsNumbered e) o in
      if_both Kept (re.is_comment line) h (
        option_both Kept (re.expand line) tt (λ text.
          if_both Kept (re.find_process_manager_variable text) h
            (read_setting-IsNumbered is_last text r h)))

  pub read_lines-IsNumbered :
      (lines : List String) (r : BootReading)
      → IsNumbered e r
      → Leaves (IsNumbered e) (read_lines re e lines r)
  unfolding read_lines
  read_lines-IsNumbered [] r h = h
  read_lines-IsNumbered (line ∷ []) r h = read_line-IsNumbered true line r h
  read_lines-IsNumbered (line ∷ next ∷ lines) r h =
      Leaves-then (IsNumbered e) (read_line re e false line r) _
        (read_line-IsNumbered false line r h) (λ x g. read_lines-IsNumbered (next ∷ lines) x g)
