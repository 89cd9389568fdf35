-- ===== src/Include/Ends.antt =====
-- rc/control/daqinterface.py, `Procinfo.recursive_include`: it ends where the documents are nested.
use artdaq_daqinterface.Prelude.{
  ℕ, zero, suc, ◌<◌, String, ◌≡◌, ◌≢◌, refl, inl, inr, Option, none, some, List, [], ◌∷◌, occurs,
  append_text, Bool-cases, Option-cases, arith,
}
use artdaq_daqinterface.Include.{
  Documents, Included, fhicl_used, unparsed, not_found, out_of_fuel, resolved, then_lines,
  include_file, include_lines, recursive_include,
}

module _ (d : Documents) (ffp : List String) (level : String → ℕ) where
  -- The documents that the lines include are at a level below `n`.
  abbrev pub AllBelow : ℕ → List String → Type 0
  AllBelow n [] = Unit
  AllBelow n (line ∷ lines) =
      ((name path : String)
        → d.included_file line ≡ some name
        → resolved d ffp name ≡ some path
        → level path < n)
      × AllBelow n lines

  then_lines-ends :
      (i : Included) (rest : String → Included)
      → i ≢ out_of_fuel
      → ((text : String) → rest text ≢ out_of_fuel)
      → then_lines d ffp i rest ≢ out_of_fuel
  then_lines-ends (fhicl_used text) rest h k = k text
  then_lines-ends (unparsed line filename) rest h k = λ e. cc
  then_lines-ends (not_found name) rest h k = λ e. cc
  then_lines-ends out_of_fuel rest h k = λ e. h refl

  module _ (call : String → String → Included) (filename : String) where
    include_file-ends :
        (line text : String) (rest : String → Included) (o : Option String)
        → d.included_file line ≡ o
        → ((name path : String)
            → d.included_file line ≡ some name
            → resolved d ffp name ≡ some path
            → call path text ≢ out_of_fuel)
        → ((text : String) → rest text ≢ out_of_fuel)
        → include_file d ffp call line filename o text rest ≢ out_of_fuel
    unfolding include_file
    include_file-ends line text rest none there h k = λ e. cc
    include_file-ends line text rest (some name) there h k =
        elim (Option-cases (resolved d ffp name)) [
          | inl missing ↦ rw (missing, include_file) (λ e. cc)
          | inr (path, found) ↦
              rw (found, include_file)
                (then_lines-ends (call path text) rest (h name path there found) k)
        ]

    include_lines-ends :
        (n : ℕ) (lines : List String) (text : String)
        → ((path text : String) → level path < n → call path text ≢ out_of_fuel)
        → AllBelow n lines
        → include_lines d ffp call filename lines text ≢ out_of_fuel
    unfolding include_lines
    include_lines-ends n [] text h below = λ e. cc
    include_lines-ends n (line ∷ lines) text h below =
        let rest = λ (t : String). include_lines-ends n lines t h below.1 in
        elim (Bool-cases (occurs "#include" line)) [
          | inr plain ↦ rw plain (rest (append_text text line))
          | inl includes ↦ elim (Bool-cases (d.is_comment line)) [
            | inl comment ↦ rw (includes, comment) (rest (append_text text line))
            | inr code ↦
                rw (includes, code)
                  (include_file-ends line text (include_lines d ffp call filename lines)
                    (d.included_file line) refl
                    (λ name path e f. h path text (below.0 name path e f)) rest)
          ]
        ]

  -- Where each document includes only documents of a lower level, as many levels of recursion as the
  -- document's own are enough: the inclusion ends with the text or with one of the exceptions.
  pub recursive_include_ends :
      (fuel : ℕ) (filename text : String)
      → ((name : String) → AllBelow (level name) (d.lines_of name))
      → level filename < fuel
      → recursive_include d ffp fuel filename text ≢ out_of_fuel
  unfolding recursive_include
  recursive_include_ends zero filename text nested enough = absurd (omega (arith, enough))
  recursive_include_ends (suc fuel) filename text nested enough =
      include_lines-ends (recursive_include d ffp fuel) filename (level filename)
        (d.lines_of filename) text
        (λ path t lt. recursive_include_ends fuel path t nested (omega (arith, lt, enough)))
        (nested filename)
