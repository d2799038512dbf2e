-- ===== src/FileHelper/Folder.antt =====
-- CopyFolder.
use moveon.Base.{
  ℕ, zero, suc, List, [], ◌∷◌, ◌++◌, Option, none, some, Bool, false, Bytes, Outcome, ok, undefined,
  ◌>>=◌, deref, ◌==◌, if◌then◌else◌,
}
use moveon.Base.Int.{ℤ, pos, negsuc, eq_ℤ}
use moveon.FileHelper.Copy.{copy_loop}
use moveon.FileHelper.Dirs.{with_slash, create_dir}
use moveon.FileHelper.Disk.{Disk, is_dir, has_file}

-- `if (path.back() != '/') path += "/"`; the empty text has no last character.
abbrev pub add_slash : Bytes → Outcome Bytes
add_slash [] = undefined
add_slash (c ∷ path) = ok (with_slash (c ∷ path))

-- Whether one of the two `strncmp` calls gives 0: the name starts with a dot.
abbrev pub is_dotted : Bytes → Bool
is_dotted [] = false
is_dotted (c ∷ name) = c == b'.'

module _ (d : Disk) where
  abbrev pub written : d.State → Option d.State → d.State × ℤ
  written s none = (s, negsuc 0)
  written s (some s') = (s', pos 0)

  abbrev pub copied_to : d.State → Bytes → Option Bytes → d.State × ℤ
  copied_to s target none = (s, negsuc 0)
  copied_to s target (some bytes) = written s (d.write s target (copy_loop bytes))

  -- `CopyFile` in the folder.
  unfoldable pub copy_at : Bytes → Bytes → d.State → d.State × ℤ
  copy_at source target s = copied_to s target (d.content s source)

  -- One round of the loop; `rec` is the recursive call.
  unfoldable pub copy_name :
      (Bytes → Bytes → d.State → Outcome (d.State × ℤ))
      → Bytes
      → Bytes
      → Bytes
      → d.State
      → Outcome (d.State × ℤ)
  unfolding copy_at
  copy_name rec source target name s =
      if is_dir d (source ++ name) s
      then (if is_dotted name then ok (s, pos 0) else rec (source ++ name) (target ++ name) s)
      else ok (copy_at (source ++ name) (target ++ name) s)

  -- The loop over the names.
  unfoldable pub copy_names :
      (Bytes → Bytes → d.State → Outcome (d.State × ℤ))
      → Bytes
      → Bytes
      → List Bytes
      → d.State
      → Outcome (d.State × ℤ)
  copy_names rec source target [] s = ok (s, pos 0)
  copy_names rec source target (name ∷ names) s = do
    (s', code) ← copy_name rec source target name s
    let rest = copy_names rec source target names s'
    if eq_ℤ code (pos 0) then rest else ok (s', negsuc 0)

  -- `!HasFile(destPath) && CreateDir(destPath)`, as the state and the result of CreateDir or 0.
  unfoldable pub ensure_dir : Bytes → d.State → d.State × ℤ
  unfolding has_file
  ensure_dir target s = if has_file d target s then (s, pos 0) else create_dir d.files target s

  -- What comes after the two tests.
  abbrev pub copy_opened :
      (Bytes → Bytes → d.State → Outcome (d.State × ℤ))
      → Bytes
      → Bytes
      → d.State
      → Outcome (d.State × ℤ)
  copy_opened rec source target s = do
    from ← add_slash source
    to ← add_slash target
    names ← deref (d.opendir s source)
    copy_names rec from to names s

  -- `CopyFolder`, with the depth of recursion that the stack has room for.
  unfoldable pub copy_folder : ℕ → Bytes → Bytes → d.State → Outcome (d.State × ℤ)
  copy_folder zero source target s = undefined
  copy_folder (suc room) source target s =
      let (s', made) = ensure_dir target s in
      let rest = copy_opened (copy_folder room) source target s' in
      if has_file d source s
      then (if eq_ℤ made (pos 0) then rest else ok (s', negsuc 0))
      else ok (s, negsuc 0)
