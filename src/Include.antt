-- ===== src/Include.antt =====
-- rc/control/daqinterface.py, `Procinfo.recursive_include`: the text of a FHiCL document with the
-- included documents in place of the lines that include them.
pub mod Ends
mod Tests
use text.Mathlib.Text.{starts_with}
use artdaq_daqinterface.Prelude.{
  ℕ, zero, suc, String, Bool, true, false, Option, none, some, List, [], ◌∷◌, occurs, append_text,
  if◌then◌else◌,
}

-- The two searches by regular expression: a line that is a comment, and the name that a line includes.
-- `exists` stands for `os.path.exists`, and `lines_of` for `open(filename).readlines()`.
pub record Documents : Type 0 where
  pub is_comment : String → Bool
  pub included_file : String → Option String
  pub exists : String → Bool
  pub lines_of : String → List String

-- `fhicl_used` at the end, or an exception; `out_of_fuel` is no outcome of the program.
pub data Included : Type 0 where
  fhicl_used : String → Included
  unparsed : String → String → Included
  not_found : String → Included
  out_of_fuel : Included

module _ (d : Documents) (ffp : List String) where
  -- The loop over `self.ffp`: the first directory that has the file.
  unfoldable pub found_file : List String → String → Option String
  unfolding append_text
  found_file [] name = none
  found_file (dirname ∷ rest) name =
      let path = append_text dirname (append_text "/" name) in
      let later = found_file rest name in if d.exists path then some path else later

  unfoldable pub resolved : String → Option String
  unfolding found_file
  resolved name =
      if starts_with name "/"
      then (if d.exists name then some name else none)
      else found_file ffp name

  abbrev pub then_lines : Included → (String → Included) → Included
  then_lines (fhicl_used text) rest = rest text
  then_lines (unparsed line filename) rest = unparsed line filename
  then_lines (not_found name) rest = not_found name
  then_lines out_of_fuel rest = out_of_fuel

  -- The inclusion of a document, with the rest of the loop; `call` is the recursive call.
  unfoldable pub include_file :
      (String → String → Included)
      → String
      → String
      → Option String
      → String
      → (String → Included)
      → Included
  include_file call line filename none text rest = unparsed line filename
  include_file call line filename (some name) text rest = elim (resolved name) [
    | none ↦ not_found name
    | some path ↦ then_lines (call path text) rest
  ]

  -- The loop over the lines; `text` is `fhicl_used` so far.
  unfoldable pub include_lines :
      (String → String → Included) → String → List String → String → Included
  unfolding include_file resolved append_text
  include_lines call filename [] text = fhicl_used text
  include_lines call filename (line ∷ lines) text =
      let rest = include_lines call filename lines in
      let kept = rest (append_text text line) in
      let inner = include_file call line filename (d.included_file line) text rest in
      if occurs "#include" line then (if d.is_comment line then kept else inner) else kept

  unfoldable pub recursive_include : ℕ → String → String → Included
  unfolding include_lines
  recursive_include zero filename text = out_of_fuel
  recursive_include (suc fuel) filename text =
      include_lines (recursive_include fuel) filename (d.lines_of filename) text

  -- `update_fhicl`; without a document there is nothing to read.
  unfoldable pub update_fhicl : ℕ → Option String → Included
  unfolding recursive_include
  update_fhicl fuel none = fhicl_used ""
  update_fhicl fuel (some filename) = recursive_include fuel filename ""
