-- ===== src/FileHelper/Disk.antt =====
-- The functions that ask the system, DeleteFile among them. The system is a parameter.
use moveon.Base.{
  List, [], ◌∷◌, ◌++◌, Option, none, some, Bool, true, false, Bytes, Outcome, ok, undefined,
  if◌then◌else◌,
}
use moveon.Base.Int.{ℤ, pos, negsuc}
use moveon.FileHelper.Paths.{slash}
use moveon.FileHelper.Dirs.{FileSystem}

-- `S_ISREG`, `S_ISDIR`, or neither.
pub data Kind : Type 0 where
  regular directory other : Kind

pub record Disk : Type 1 where
  pub files : FileSystem
  pub open files use *
  -- `lstat` and `stat`, `none` where they fail
  pub lstat : State → Bytes → Option Kind
  pub stat : State → Bytes → Option Kind
  -- `remove`, whose result is ignored
  pub remove : State → Bytes → State
  -- `opendir`, and the names that `readdir` then gives; `none` for a null pointer
  pub opendir : State → Bytes → Option (List Bytes)
  -- `fopen(.., "r")` and what the file holds
  pub content : State → Bytes → Option Bytes
  -- `fopen(.., "w")`, the bytes that are written, and `fclose`; `none` where one fails
  pub write : State → Bytes → Bytes → Option State
  -- `chdir`
  pub chdir : State → Bytes → State × ℤ
  -- `getcwd` with a buffer of 128 bytes, `none` where it does not give the buffer
  pub getcwd : State → Option Bytes

abbrev is_regular : Option Kind → Bool
is_regular (some regular) = true
is_regular _ = false

abbrev is_directory : Option Kind → Bool
is_directory (some directory) = true
is_directory _ = false

module _ (d : Disk) where
  -- `Chdir`
  unfoldable pub change_dir : Bytes → d.State → d.State × ℤ
  change_dir path s = d.chdir s path

  -- `IsFile`
  unfoldable pub is_file : Bytes → d.State → Bool
  is_file path s = is_regular (d.lstat s path)

  -- `IsDir`
  unfoldable pub is_dir : Bytes → d.State → Bool
  is_dir [] s = false
  is_dir (c ∷ path) s = is_directory (d.stat s (c ∷ path))

  -- `HasFile`
  unfoldable pub has_file : Bytes → d.State → Bool
  has_file name s = d.access s name

  -- `HasRelativePathFile`
  unfoldable pub has_relative_path_file : Bytes → d.State → Bool
  unfolding has_file
  has_relative_path_file file s = elim (d.getcwd s) [
    | none ↦ false
    | some dir ↦ has_file (dir ++ (slash ∷ file)) s
  ]

  -- `GetExecuteDir`: the text that it assigns, `none` where it returns false.
  unfoldable pub get_execute_dir : d.State → Option Bytes
  get_execute_dir s = d.getcwd s

  -- The loop of `DeleteFile`: its body starts with `file_path.back()`, and nothing has put a
  -- character into `file_path`, so that no more of the body runs in the defined behaviour.
  unfoldable pub delete_loop : List Bytes → d.State → Outcome (d.State × ℤ)
  delete_loop [] s = ok (s, pos 0)
  delete_loop (name ∷ names) s = undefined

  abbrev pub delete_opened : d.State → Option (List Bytes) → Outcome (d.State × ℤ)
  delete_opened s none = ok (s, negsuc 0)
  delete_opened s (some names) = delete_loop names s

  -- `DeleteFile`
  unfoldable pub delete_file : Bytes → d.State → Outcome (d.State × ℤ)
  unfolding is_file is_dir
  delete_file path s =
      if is_file path s
      then ok (d.remove s path, pos 0)
      else if is_dir path s
      then delete_opened s (d.opendir s path)
      else ok (s, pos 0)
