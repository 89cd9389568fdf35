-- ===== src/Fhicl/Tests.antt =====
-- Searches in a small document, for rc/control/utilities.py.
use text.Mathlib.Text.{starts_with}
use artdaq_daqinterface.Prelude.{String, ◌≡◌, refl, none, some, append_text}
use artdaq_daqinterface.Fhicl.Tables.{
  TableSearches, range, Answered, table_range, table_range_answers,
}
use artdaq_daqinterface.Fhicl.{brace, find, drop_text, enclosing_table_range}
use artdaq_daqinterface.Fhicl.Enclosing.{BeginsAround, enclosing_begins-BeginsAround}

abbrev document : String
document = "a: { b: { c: 1 } d: 2 e: { f: 3 } }"

-- The table around "d" ends at the end of the document.
around_d : enclosing_table_range document "d:" 0 ≡ some (3, 26)
unfolding enclosing_table_range
around_d = refl

enclosing_begins-BeginsAround_example : BeginsAround document 0 17 3
unfolding enclosing_table_range find
enclosing_begins-BeginsAround_example =
    enclosing_begins-BeginsAround document "d:" 0 17 3 26 refl refl

abbrev searches : TableSearches
searches = record {
  original_table_name = λ name text. none;
  begins_table = λ name text. starts_with text (append_text name ": {");
}

table_b : table_range searches 9 document "b" 0 ≡ range 5 16
unfolding table_range append_text brace
table_b = refl

table_e : table_range searches 9 document "e" 0 ≡ range 22 33
unfolding table_range append_text brace
table_e = refl

table_range_answers_example : Answered document 5 (table_range searches 9 document "b" 0)
unfolding find drop_text append_text
table_range_answers_example = table_range_answers searches 8 document "b" 0 5 refl refl refl
