-- ===== src/Bodies/Documents.antt =====
-- rc/control/daqinterface.py: the FHiCL documents of the processes, as `do_config` and
-- `_do_config_prepare` find them.
use text.Mathlib.Text.{starts_with}
use artdaq_daqinterface.Prelude.{
  ℕ, zero, suc, String, ◌=ₛ◌, Bool, true, false, ◌||◌, Option, none, some, List, [], ◌∷◌, Dict,
  isin, append_text, if◌then◌else◌,
}
use artdaq_daqinterface.Procinfo.{Procinfo, is_boardreader}
use artdaq_daqinterface.Bookkeeping.Graph.{Subsystem}
use artdaq_daqinterface.Command.{Reply}
use artdaq_daqinterface.Include.{Documents}
use artdaq_daqinterface.Requirements.{Searches}
use artdaq_daqinterface.Bodies.Archive.{Document}

-- A file that `os.walk` finds: its name, its path and its contents.
pub record FoundFile : Type 0 where
  pub filename : String
  pub path : String
  pub contents : String

-- The directory with the documents of the configurations, and the search path of included files.
pub record ConfigInfo : Type 0 where
  pub files : List FoundFile
  pub fhicl_file_path : List String

-- The settings, and what the functions of the experiment, the file system and the servers answer.
-- `reformat` is the program that rewrites all documents, `relabel` writes a number into the names of
-- ROOT files, and `bookkeeping` are the documents with what the processes need to know of another.
-- `metadata` is the text of the metadata file for the configurations of the request.
-- `recursion_limit` is that of Python, where a document that includes itself raises an exception.
pub record ConfigAnswers : Type 0 where
  pub get_config_info : List String → Option ConfigInfo
  pub documents : Documents
  pub recursion_limit : ℕ
  pub disable_unique_rootfile_labels : Bool
  pub relabel : ℕ → String → String
  pub reformat : List String → Option (List String)
  pub bookkeeping : List Procinfo → Dict Subsystem → Option (List String)
  pub record_directory_raises : Bool
  pub check_config_raises : Bool
  pub boardreader_priorities : Option (List String)
  pub metadata : List String → Option String
  pub boot : Option String
  pub add_entry : Procinfo → Document → Reply
  pub searches : Searches

unfoldable pub ends_with : String → String → Bool
ends_with suffix String.[] = String.[] =ₛ suffix
ends_with suffix (String.◌∷◌ c s) = (String.◌∷◌ c s =ₛ suffix) || ends_with suffix s

-- `s.replace(old, new)` for an old text of `suc n` characters; `skipped` counts the characters of a
-- found one that are still to be passed over.
unfoldable pub replace_text : String → ℕ → String → ℕ → String → String
unfolding append_text
replace_text old n new skipped String.[] = String.[]
replace_text old n new (suc skipped) (String.◌∷◌ c s) = replace_text old n new skipped s
replace_text old n new zero (String.◌∷◌ c s) =
    let found = append_text new (replace_text old n new n s) in
    let kept = String.◌∷◌ c (replace_text old n new zero s) in
    if starts_with (String.◌∷◌ c s) old then found else kept

-- The other name for the document of the same component.
unfoldable pub other_filename : String → String
unfolding ends_with replace_text
other_filename name =
    if ends_with "_hw_cfg.fcl" name
    then replace_text "_hw_cfg.fcl" 10 ".fcl" 0 name
    else replace_text ".fcl" 3 "_hw_cfg.fcl" 0 name

-- Whether the loop over the files finds the name of a document for a second time; `known` are the keys
-- of `filename_dictionary`.
unfoldable pub finds_repeated : List FoundFile → List String → Bool
unfolding isin ends_with other_filename
finds_repeated [] known = false
finds_repeated (f ∷ fs) known =
    let skipped = finds_repeated fs known in
    let later = finds_repeated fs (f.filename ∷ other_filename f.filename ∷ known) in
    if ends_with ".fcl" f.filename then (if isin f.filename known then true else later) else skipped

abbrev pub fhicls : List Procinfo → List String
fhicls [] = []
fhicls (p ∷ ps) = p.fhicl_used ∷ fhicls ps

-- The documents of the processes, in their order; none is Python's IndexError.
unfoldable pub give_documents : List String → List Procinfo → Option (List Procinfo)
give_documents [] ps = some ps
give_documents (text ∷ texts) [] = none
give_documents (text ∷ texts) (p ∷ ps) = elim (give_documents texts ps) [
  | none ↦ none
  | some rest ↦ some ((record p { fhicl_used = text }) ∷ rest)
]

unfoldable pub given_documents : Option (List String) → List Procinfo → Option (List Procinfo)
unfolding give_documents
given_documents none ps = none
given_documents (some texts) ps = give_documents texts ps

-- The names of the files that may hold the document of a process.
unfoldable pub matching_filenames : Procinfo → List String
unfolding append_text
matching_filenames p =
    let name = append_text p.label ".fcl" in
    if is_boardreader p then name ∷ append_text p.label "_hw_cfg.fcl" ∷ [] else name ∷ []

-- The last file with one of the names.
unfoldable pub last_match : List String → List FoundFile → Option FoundFile
unfolding isin
last_match names [] = none
last_match names (f ∷ fs) = elim (last_match names fs) [
  | some later ↦ some later
  | none ↦ if isin f.filename names then some f else none
]

-- The texts of the files, as they stand.
unfoldable pub read_documents : List FoundFile → List Procinfo → Option (List Procinfo)
unfolding last_match matching_filenames
read_documents files [] = some []
read_documents files (p ∷ ps) = elim (last_match (matching_filenames p) files) [
  | none ↦ none
  | some f ↦ elim (read_documents files ps) [
    | none ↦ none
    | some rest ↦ some ((record p { fhicl_used = f.contents }) ∷ rest)
  ]
]

module _ (w : ConfigAnswers) where
  -- The reformatting and the bookkeeping.
  unfoldable pub reformat_processes : List Procinfo → Option (List Procinfo)
  unfolding give_documents
  reformat_processes ps = given_documents (w.reformat (fhicls ps)) ps

  unfoldable pub bookkeep_processes : Dict Subsystem → List Procinfo → Option (List Procinfo)
  unfolding give_documents
  bookkeep_processes g ps = given_documents (w.bookkeeping ps g) ps

  unfoldable pub prepare_from :
      Dict Subsystem → List Procinfo → Option ConfigInfo → Option (List Procinfo)
  unfolding read_documents reformat_processes bookkeep_processes
  prepare_from g ps none = none
  prepare_from g ps (some info) = elim (read_documents info.files ps) [
    | none ↦ none
    | some found ↦ elim (reformat_processes found) [
      | none ↦ none
      | some reformatted ↦ bookkeep_processes g reformatted
    ]
  ]

  -- `_do_config_prepare` with the configurations that it read: the processes with their documents,
  -- or none where an exception ends it.
  unfoldable pub do_config_prepare :
      List String → Dict Subsystem → List Procinfo → Option (List Procinfo)
  unfolding prepare_from
  do_config_prepare configs g ps = prepare_from g ps (w.get_config_info configs)
