-- ===== src/Include/Tests.antt =====
-- A document that includes another one, for rc/control/daqinterface.py.
use artdaq_daqinterface.Prelude.{
  ℕ, ◌<◌, String, ◌=ₛ◌, ◌≡◌, ◌≢◌, refl, none, some, List, [], ◌∷◌, if◌then◌else◌, arith, inl, inr,
  Bool-cases,
}
use artdaq_daqinterface.Include.{
  Documents, fhicl_used, not_found, out_of_fuel, resolved, recursive_include, update_fhicl,
}
use artdaq_daqinterface.Include.Ends.{AllBelow, recursive_include_ends}

abbrev documents : Documents
documents = record {
  is_comment = λ line. line =ₛ "# #include";
  included_file = λ line. if line =ₛ "#include inner" then some "inner" else none;
  exists = λ path. path =ₛ "/fcl/inner";
  lines_of =
      λ name. if name =ₛ "outer" then "a: 1 " ∷ "#include inner" ∷ "c: 3" ∷ [] else "b: 2 " ∷ [];
}

abbrev paths : List String
paths = "/other" ∷ "/fcl" ∷ []

inner_in_outer : update_fhicl documents paths 2 (some "outer") ≡ fhicl_used "a: 1 b: 2 c: 3"
unfolding update_fhicl
inner_in_outer = refl

no_directory : update_fhicl documents [] 2 (some "outer") ≡ not_found "inner"
unfolding update_fhicl
no_directory = refl

abbrev level : String → ℕ
level name = if name =ₛ "outer" then 1 else 0

resolved_inner :
    (name path : String)
    → some "inner" ≡ some name
    → resolved documents paths name ≡ some path
    → level path < 1
unfolding resolved
resolved_inner name path e f =
    let same : "inner" ≡ name = cc in
    let found : some "/fcl/inner" ≡ some path = rw (← same) at f in
    let there : "/fcl/inner" ≡ path = cc in rw (← there) (omega arith)

outer_nested : AllBelow documents paths level 1 ("a: 1 " ∷ "#include inner" ∷ "c: 3" ∷ [])
outer_nested =
    ((λ name path e f. absurd (cc)), (resolved_inner, ((λ name path e f. absurd (cc)), tt)))

nested : (name : String) → AllBelow documents paths level (level name) (documents.lines_of name)
nested name = elim (Bool-cases (name =ₛ "outer")) [
  | inl e ↦ rw e outer_nested
  | inr e ↦ rw e ((λ name path e f. absurd (cc)), tt)
]

recursive_include_ends_example : recursive_include documents paths 2 "outer" "" ≢ out_of_fuel
recursive_include_ends_example =
    recursive_include_ends documents paths level 2 "outer" "" nested (omega arith)
