-- ===== src/FileHelper/Dirs.antt =====
-- CreateDir, over a file system that is a parameter: its state, `access` and `mkdir`.
use moveon.Base.{
  ℕ, [], ◌∷◌, ◌++◌, Option, none, some, Bool, true, false, Bytes, if◌then◌else◌, ◌==◌,
}
use moveon.Base.Int.{ℤ, pos, negsuc}
use moveon.FileHelper.Paths.{slash}

pub record FileSystem : Type 1 where
  pub State : Type 0
  -- `access(dir, F_OK) == 0`
  pub access : State → Bytes → Bool
  -- `mkdir`, `none` where it fails
  pub mkdir : State → Bytes → Option State

-- The name with a slash at its end, if it is not empty.
unfoldable pub with_slash : Bytes → Bytes
with_slash [] = []
with_slash (c ∷ []) = if c == slash then c ∷ [] else c ∷ slash ∷ []
with_slash (c ∷ d ∷ cs) = c ∷ with_slash (d ∷ cs)

module _ (fs : FileSystem) where
  abbrev pub made_unless : fs.State → Bytes → Bool → Option fs.State
  made_unless s dir true = some s
  made_unless s dir false = fs.mkdir s dir

  -- One directory of the loop: the state, `none` where `mkdir` fails.
  unfoldable pub create_one : fs.State → Bytes → Option fs.State
  create_one s dir = made_unless s dir (fs.access s dir)

  abbrev pub visit_if : Bytes → ℕ → fs.State → Bool → Option fs.State
  visit_if done c s true = create_one s (done ++ (c ∷ []))
  visit_if done c s false = some s

  -- The loop over the slashes, as a walk along the name: `done` is the part that is passed, and the
  -- result is false where a `mkdir` failed.
  unfoldable pub create_from : Bytes → Bytes → fs.State → fs.State × Bool
  create_from done [] s = (s, true)
  create_from done (c ∷ rest) s = elim (visit_if done c s (c == slash)) [
    | none ↦ (s, false)
    | some s' ↦ create_from (done ++ (c ∷ [])) rest s'
  ]

  -- `CreateDir`
  unfoldable pub create_dir : Bytes → fs.State → fs.State × ℤ
  create_dir name s =
      let (s', made) = create_from [] (with_slash name) s in (s', if made then pos 0 else negsuc 0)
