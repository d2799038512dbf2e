-- ===== src/FileHelper/Tree.antt =====
-- A tree of files, and what a copy of it leaves on a disk.
use moveon.Base.{ℕ, suc, ◌≡◌, List, [], ◌∷◌, ◌++◌, some, true, false, Bytes, leb, if◌then◌else◌}
use moveon.FileHelper.Dirs.{with_slash}
use moveon.FileHelper.Disk.{Disk, is_dir, has_file}
use moveon.FileHelper.Folder.{ensure_dir, is_dotted}

-- `dotted` is a directory whose name starts with a dot, such as "." and "..", whatever it holds.
mutual
  pub data Tree : Type 0 where
    file : Bytes → Tree
    dir : Entries → Tree

  pub data Entries : Type 0 where
    nil : Entries
    entry : Bytes → Tree → Entries → Entries
    dotted : Bytes → Entries → Entries

unfoldable pub names : Entries → List Bytes
names nil = []
names (entry name t es) = name ∷ names es
names (dotted name es) = name ∷ names es

abbrev pub max : ℕ → ℕ → ℕ
max m n = if leb m n then n else m

-- The folders below each other.
unfoldable mutual
  pub depth : Tree → ℕ
  depth (file bytes) = 0
  depth (dir es) = suc (depth_all es)

  pub depth_all : Entries → ℕ
  depth_all nil = 0
  depth_all (entry name t es) = max (depth t) (depth_all es)
  depth_all (dotted name es) = depth_all es

-- A folder with a dotted name is `dotted`, not `entry`.
abbrev pub IsPlain : Bytes → Tree → Type 0
IsPlain name (file bytes) = Unit
IsPlain name (dir es) = is_dotted name ≡ false

module _ (d : Disk) where
  -- The disk holds the tree at the path, in every state: nothing changes it.
  unfoldable mutual
    pub IsAt : Bytes → Tree → Type 0
    IsAt path (file bytes) =
        (s : d.State) → (is_dir d path s ≡ false) × (d.content s path ≡ some bytes)
    IsAt path (dir es) =
        ((s : d.State)
          → (is_dir d path s ≡ true)
            × (has_file d path s ≡ true)
            × (d.opendir s path ≡ some (names es)))
        × AreAt (with_slash path) es

    pub AreAt : Bytes → Entries → Type 0
    AreAt path nil = Unit
    AreAt path (entry name t es) = IsAt (path ++ name) t × IsPlain name t × AreAt path es
    AreAt path (dotted name es) =
        ((s : d.State) → is_dir d (path ++ name) s ≡ true) × (is_dotted name ≡ true) × AreAt path es

  -- The state after a copy whose writes all succeed: each file with one more byte 255, in folders
  -- that are made where they are missing, and no folder whose name starts with a dot.
  module _ (put : d.State → Bytes → Bytes → d.State) where
    unfoldable mutual
      pub copied : Tree → Bytes → d.State → d.State
      copied (file bytes) target s = put s target (bytes ++ (255 ∷ []))
      copied (dir es) target s = copied_all es (with_slash target) (ensure_dir d target s).0

      pub copied_all : Entries → Bytes → d.State → d.State
      copied_all nil target s = s
      copied_all (entry name t es) target s = copied_all es target (copied t (target ++ name) s)
      copied_all (dotted name es) target s = copied_all es target s
