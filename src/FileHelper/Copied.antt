-- ===== src/FileHelper/Copied.antt =====
-- CopyFolder copies a tree, in the room that its depth needs.
use moveon.Base.{
  ℕ, zero, suc, ◌≤◌, ◌≡◌, refl, ap, ◌∙◌, [], ◌∷◌, ◌++◌, some, Bool, true, false, Bytes, ok, ◌==◌,
  Bool-cases, inl, inr, arith,
}
use moveon.Base.Int.{pos}
use moveon.FileHelper.Paths.{slash}
use moveon.FileHelper.Copy.{copy_loop}
use moveon.FileHelper.Laws.{copy_loop-append}
use moveon.FileHelper.Dirs.{with_slash, made_unless, visit_if, create_one, create_from, create_dir}
use moveon.FileHelper.Created.{create_from-some}
use moveon.FileHelper.Disk.{Disk, has_file}
use moveon.FileHelper.Folder.{add_slash, copy_at, copy_name, copy_names, ensure_dir, copy_folder}
use moveon.FileHelper.Tree.{
  Tree, file, dir, Entries, nil, entry, dotted, names, depth, depth_all, IsPlain, IsAt, AreAt,
  copied, copied_all,
}

-- A path with a character.
abbrev pub IsFull : Bytes → Type 0
IsFull path = (c : ℕ) × (cs : Bytes) × (path ≡ c ∷ cs)

IsFull-append : (path name : Bytes) → IsFull path → IsFull (path ++ name)
IsFull-append path name (c, cs, e) = (c, cs ++ name, ap (λ p. p ++ name) e)

IsFull-with_slash : (path : Bytes) → IsFull path → IsFull (with_slash path)
unfolding with_slash
IsFull-with_slash [] (c, cs, e) = cc e
IsFull-with_slash (c ∷ []) f = elim (Bool-cases (c == slash)) [
  | inl same ↦ (c, [], simp same refl)
  | inr other ↦ (c, slash ∷ [], simp other refl)
]
IsFull-with_slash (c ∷ b ∷ cs) f = (c, with_slash (b ∷ cs), refl)

add_slash-IsFull : (path : Bytes) → IsFull path → add_slash path ≡ ok (with_slash path)
add_slash-IsFull [] (c, cs, e) = cc e
add_slash-IsFull (c ∷ path) f = refl

module _ (d : Disk) (make : d.State → Bytes → d.State) (put : d.State → Bytes → Bytes → d.State)
    (makes : (s : d.State) (path : Bytes) → d.mkdir s path ≡ some (make s path))
    (writes : (s : d.State) (path bytes : Bytes)
      → d.write s path bytes ≡ some (put s path bytes)) where
  made_total :
      (s : d.State) (path : Bytes) (b : Bool)
      → (s' : d.State) × (made_unless d.files s path b ≡ some s')
  made_total s path true = (s, refl)
  made_total s path false = (make s path, makes s path)

  visit_total :
      (done : Bytes) (c : ℕ) (s : d.State) (b : Bool)
      → (s' : d.State) × (visit_if d.files done c s b ≡ some s')
  unfolding create_one
  visit_total done c s true = made_total s (done ++ (c ∷ [])) (d.access s (done ++ (c ∷ [])))
  visit_total done c s false = (s, refl)

  created : (done rest : Bytes) (s : d.State) → (create_from d.files done rest s).1 ≡ true
  created done [] s = unfold create_from in refl
  created done (c ∷ rest) s =
      let (s', visited) = visit_total done c s (c == slash) in
      ap (λ r. r.1) (create_from-some d.files done c rest s s' visited)
      ∙ created (done ++ (c ∷ [])) rest s'

  ensured :
      (target : Bytes) (s : d.State) → ensure_dir d target s ≡ ((ensure_dir d target s).0, pos 0)
  unfolding ensure_dir create_dir
  ensured target s = elim (Bool-cases (has_file d target s)) [
    | inl there ↦ simp there refl
    | inr missing ↦ simp (missing, created [] (with_slash target) s) refl
  ]

  -- One call on a folder, from what its loop does.
  copy_folder-suc :
      (room : ℕ) (source target : Bytes) (es : Entries) (s s' : d.State)
      → IsFull source
      → IsFull target
      → IsAt d source (dir es)
      → copy_names d
          (copy_folder d room)
          (with_slash source)
          (with_slash target)
          (names es)
          (ensure_dir d target s).0
        ≡ ok (s', pos 0)
      → copy_folder d (suc room) source target s ≡ ok (s', pos 0)
  unfolding copy_folder IsAt
  copy_folder-suc room source target es s s' full full' (there, within) loop =
      rw
        (
          ensured target s,
          (there s).1,
          add_slash-IsFull source full,
          add_slash-IsFull target full',
          (there (ensure_dir d target s).0).2,
        )
        loop

  mutual
    unfolding IsAt copied depth names copy_names copy_name copy_at

    name_copied :
        (t : Tree) (room : ℕ) (source target name : Bytes) (s : d.State)
        → depth t ≤ room
        → IsFull source
        → IsFull target
        → IsPlain name t
        → IsAt d (source ++ name) t
        → copy_name d (copy_folder d room) source target name s
          ≡ ok (copied d put t (target ++ name) s, pos 0)
    name_copied (file bytes) room source target name s deep full full' plain there = rw (
      (there s).0,
      (there s).1,
      writes s (target ++ name) (copy_loop bytes),
      copy_loop-append bytes,
    )
    name_copied (dir es) zero source target name s deep full full' plain there =
        absurd (omega arith)
    name_copied (dir es) (suc room) source target name s deep full full' plain there =
        rw ((there.0 s).0, plain)
          (copy_folder-suc room (source ++ name) (target ++ name) es s _
            (IsFull-append source name full) (IsFull-append target name full') there
            (names_copied es room (with_slash (source ++ name)) (with_slash (target ++ name)) _
              (omega arith) (IsFull-with_slash (source ++ name) (IsFull-append source name full))
              (IsFull-with_slash (target ++ name) (IsFull-append target name full')) there.1))

    names_copied :
        (es : Entries) (room : ℕ) (source target : Bytes) (s : d.State)
        → depth_all es ≤ room
        → IsFull source
        → IsFull target
        → AreAt d source es
        → copy_names d (copy_folder d room) source target (names es) s
          ≡ ok (copied_all d put es target s, pos 0)
    names_copied nil room source target s deep full full' there = refl
    names_copied (entry name t es) room source target s deep full full' (here, plain, rest) =
        rw (name_copied t room source target name s (ground arith) full full' plain here) (
          names_copied es room source target (copied d put t (target ++ name) s) (ground arith) full
            full' rest)
    names_copied (dotted name es) room source target s deep full full' (here, dot, rest) =
        rw (here s, dot) (names_copied es room source target s deep full full' rest)
