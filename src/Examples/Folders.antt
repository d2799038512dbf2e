-- ===== src/Examples/Folders.antt =====
-- A folder on a disk in memory, copied.
use moveon.Base.{
  List, [], ◌∷◌, none, some, Bool, false, Bytes, codes, ◌||◌, text_beq, text_eq, if◌then◌else◌,
}
use moveon.Base.Int.{pos}
use moveon.FileHelper.Disk.{Disk, regular, directory}
use moveon.FileHelper.Tree.{file, Entries, nil, entry, dotted}

-- What was written, the newest first; a folder that was made is a path with no bytes.
abbrev Writes : Type 0
Writes = List (Bytes × Bytes)

abbrev has_path : Writes → Bytes → Bool
has_path [] path = false
has_path ((p, bytes) ∷ s) path = text_beq p path || has_path s path

-- The folder "s" holds ".", and the file "a".
abbrev is_folder : Bytes → Bool
is_folder path = text_beq path (codes "s") || text_beq path (codes "s/.")

abbrev put_path : Writes → Bytes → Bytes → Writes
put_path s path bytes = (path, bytes) ∷ s

abbrev make_path : Writes → Bytes → Writes
make_path s path = (path, []) ∷ s

abbrev in_memory : Disk
in_memory = record {
  files = record {
    State = Writes;
    access = λ s path. is_folder path || has_path s path;
    mkdir = λ s path. some (make_path s path);
  };
  lstat = λ s path. some (if is_folder path then directory else regular);
  stat = λ s path. some (if is_folder path then directory else regular);
  remove = λ s path. s;
  opendir = λ s path. some (codes "." ∷ codes "a" ∷ []);
  content = λ s path. some (codes "hi");
  write = λ s path bytes. some (put_path s path bytes);
  chdir = λ s path. (s, pos 0);
  getcwd = λ s. none;
}

abbrev small_tree : Entries
small_tree = dotted (codes ".") (entry (codes "a") (file (codes "hi")) nil)
