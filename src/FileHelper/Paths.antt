-- ===== src/FileHelper/Paths.antt =====
-- The functions on names: GetFileLocation, and GetAllSuffixFiles over the names that `readdir`
-- gives one after the other.
use moveon.Base.{
  ℕ, suc, ◌+◌, ◌-◌, List, [], ◌∷◌, ◌++◌, Option, none, some, Bool, false, Bytes, text_beq, leb,
  ◌==◌, if◌then◌else◌, length, take, drop,
}

-- '/'
abbrev pub slash : ℕ
slash = 47

-- `find_last_of("/")`
unfoldable pub find_last_slash : Bytes → Option ℕ
find_last_slash [] = none
find_last_slash (c ∷ cs) = elim (find_last_slash cs) [
  | some at ↦ some (suc at)
  | none ↦ if c == slash then some 0 else none
]

abbrev pub located : Bytes → Option ℕ → Bytes
located file (some at) = take (at + 1) file
located file none = file ++ (slash ∷ [])

unfoldable pub get_file_location : Bytes → Bytes
get_file_location file = located file (find_last_slash file)

-- The test on the end of a name.
unfoldable pub has_suffix : Bytes → Bytes → Bool
has_suffix file suffix =
    if leb (length suffix) (length file)
    then text_beq (drop (length file - length suffix) file) suffix
    else false

-- What the loop adds to `files`.
unfoldable pub suffix_files : Bytes → Bytes → List Bytes → List Bytes
suffix_files path suffix [] = []
suffix_files path suffix (file ∷ names) =
    let rest = suffix_files path suffix names in
    if has_suffix file suffix then (path ++ (slash ∷ file)) ∷ rest else rest

-- `GetAllSuffixFiles`; `exists` is the result of `access`, and `names` what the directory holds. A
-- path that is no directory, where `opendir` gives a null pointer, is left out.
unfoldable pub get_all_suffix_files : Bool → Bytes → Bytes → List Bytes → List Bytes
get_all_suffix_files exists path suffix names =
    if exists then suffix_files path suffix names else []
