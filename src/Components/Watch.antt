-- ===== src/Components/Watch.antt =====
-- `_update_callback` of src/pyqgisservercontrib/core/watchfiles.py.
use py_qgis_server.Prelude.{
  ℕ, String, Option, none, some, List, [], ◌∷◌, nat_eq, string_eq, ◌==◌, if◌then◌else◌, Result, ok,
  raise,
}
use py_qgis_server.Dict
use py_qgis_server.Dict.{Dict}

-- `FileNotFoundError`, or another exception of `os.stat`; both are caught.
pub data Error : Type 0 where
  file_not_found other_error : Error

-- What `_check_file` does with a time that was read: `none` as a first result is `None`.
unfoldable pub note_time : String → ℕ → Dict String ℕ → Option String × Dict String ℕ
unfolding Dict.get Dict.put
note_time path modified times = elim (Dict.get path times) [
  | none ↦ (none, Dict.put path modified times)
  | some known ↦
      if known == modified then (none, times) else (some path, Dict.put path modified times)
]

-- `_check_file`
unfoldable pub check_file :
    (String → Result Error ℕ) → String → Dict String ℕ → Option String × Dict String ℕ
unfolding note_time
check_file stat path times = elim (stat path) [
  | ok modified ↦ note_time path modified times
  | raise x ↦ (none, times)
]

abbrev pub add_path : String → Option String → List String → List String
add_path path none paths = paths
add_path path (some p) paths = path ∷ paths

-- the list of the modified files
unfoldable pub modified_files :
    (String → Result Error ℕ) → List String → Dict String ℕ → List String × Dict String ℕ
unfolding check_file
modified_files stat [] times = ([], times)
modified_files stat (path ∷ paths) times =
    let checked = check_file stat path times in
    let rest = modified_files stat paths checked.1 in (add_path path checked.0 rest.0, rest.1)

abbrev call_with : List String → List (List String) → List (List String)
call_with [] calls = calls
call_with (p ∷ ps) calls = (p ∷ ps) ∷ calls

-- `_update_callback`: the calls of `updatefunc`, the last one first, and the times
unfoldable pub update_callback :
    (String → Result Error ℕ)
    → List String
    → List (List String) × Dict String ℕ
    → List (List String) × Dict String ℕ
unfolding modified_files
update_callback stat watched (calls, times) =
    let found = modified_files stat watched times in (call_with found.0 calls, found.1)
