-- ===== src/Bodies/Archive.antt =====
-- rc/control/daqinterface.py: `archive_documents`, and the documents that `do_config` archives.
use text.Mathlib.Text.{starts_with}
use artdaq_daqinterface.Prelude.{
  String, ◌=ₛ◌, Bool, ◌&&◌, ◌||◌, List, [], ◌∷◌, occurs, append_text, if◌then◌else◌,
}
use artdaq_daqinterface.Procinfo.{Procinfo, is_eventbuilder}
use artdaq_daqinterface.Command.{Reply, replied, raised}
use artdaq_daqinterface.Requirements.{Searches, fhicl_writes_root_file}
use artdaq_daqinterface.Bodies.{
  Daqinterface, Progress, goes_on, raised_out, Servers, recover_from, recover_and_go_on,
}

-- `re.sub("'", '"', text)`
unfoldable pub with_double_quotes : String → String
with_double_quotes String.[] = String.[]
with_double_quotes (String.◌∷◌ c s) =
    let rest = with_double_quotes s in
    if starts_with (String.◌∷◌ c s) "'" then append_text "\"" rest else String.◌∷◌ c rest

-- A label and a document.
abbrev pub Document : Type 0
Document = String × String

unfoldable pub fhicl_documents : List Procinfo → List Document
unfolding with_double_quotes
fhicl_documents [] = []
fhicl_documents (p ∷ ps) = (p.label, with_double_quotes p.fhicl_used) ∷ fhicl_documents ps

unfoldable pub contents_document : String → String → Document
unfolding with_double_quotes append_text
contents_document filestub contents =
    (filestub, append_text "contents: \"\n" (append_text (with_double_quotes contents) "\n\"\n"))

-- How the archiving of documents goes: all were taken, a call raised an exception, or a process
-- returned another text than "Success".
pub data Archived : Type 0 where
  all_taken : Archived
  call_raised : (label process : String) → Archived
  unsuccessful : (label process : String) → Archived

-- `add_entry` is the call `add_config_archive_entry` of a process's server.
module _ (add_entry : Procinfo → Document → Reply) (re : Searches) where
  abbrev pub note_entry :
      Procinfo → Document → Reply → (Procinfo → Procinfo × Archived) → Procinfo × Archived
  note_entry p (label, contents) raised rest = (p, call_raised label p.label)
  note_entry p (label, contents) (replied s) rest =
      let p' : Procinfo = record p { lastreturned = s } in
      let later = rest p' in if s =ₛ "Success" then later else (p', unsuccessful label p.label)

  -- The loop over the documents.
  unfoldable pub archive_to : List Document → Procinfo → Procinfo × Archived
  archive_to [] p = (p, all_taken)
  archive_to (document ∷ documents) p =
      note_entry p document (add_entry p document) (archive_to documents)

  unfoldable pub archives : Procinfo → Bool
  unfolding fhicl_writes_root_file
  archives p =
      (is_eventbuilder p || occurs "DataLogger" p.name) && fhicl_writes_root_file re p.fhicl_used

  abbrev pub next_process :
      List Procinfo → List Procinfo × Archived → Procinfo × Archived → List Procinfo × Archived
  next_process ps rest (p, all_taken) = (p ∷ rest.0, rest.1)
  next_process ps rest (p, ended) = (p ∷ ps, ended)

  -- The loop over the processes.
  unfoldable pub archive_all : List Document → List Procinfo → List Procinfo × Archived
  unfolding archive_to archives
  archive_all documents [] = ([], all_taken)
  archive_all documents (p ∷ ps) =
      let rest = archive_all documents ps in
      if archives p then next_process ps rest (archive_to documents p) else (p ∷ rest.0, rest.1)

  module _ {A : Type 0} (servers : Servers) where
    -- Where a call raises an exception, a recovery is run, and the caller goes on.
    unfoldable pub after_archiving : Daqinterface A → List Procinfo × Archived → Progress A
    unfolding recover_from
    after_archiving d (ps, all_taken) =
        goes_on (record d { recovery = record (d.recovery) { procinfos = ps } })
    after_archiving d (ps, call_raised label process) =
        recover_and_go_on servers "An exception was thrown when attempting to add archive entry"
          (record d { recovery = record (d.recovery) { procinfos = ps } })
    after_archiving d (ps, unsuccessful label process) =
        raised_out (record d { recovery = record (d.recovery) { procinfos = ps } })

    unfoldable pub archive_documents : List Document → Daqinterface A → Progress A
    unfolding archive_all after_archiving
    archive_documents documents d = after_archiving d (archive_all documents d.recovery.procinfos)
