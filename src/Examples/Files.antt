-- ===== src/Examples/Files.antt =====
-- The theorems on files, applied.
use moveon.Base.{
  ◌≡◌, ◌↔◌, refl, ap, subst, List, [], ◌∷◌, ◌++◌, none, some, Bool, true, false, Bytes, codes, ◌||◌,
  text_beq, text_beq_iff, arith,
}
use moveon.FileHelper.Paths.{has_suffix, slash}
use moveon.FileHelper.Dirs.{FileSystem, create_dir, with_slash, create_from, create_one}
use moveon.FileHelper.Laws.{has_suffix_iff}
use moveon.FileHelper.Created.{create_dir-makes}

has_suffix_iff_example :
    (has_suffix (codes "x.cpp") (codes ".cpp") ≡ true)
    ↔ ((stem : Bytes) × (codes "x.cpp" ≡ stem ++ codes ".cpp"))
has_suffix_iff_example = has_suffix_iff (codes "x.cpp") (codes ".cpp")

-- A file system that is the list of its directories.
abbrev holds : List Bytes → Bytes → Bool
holds [] dir = false
holds (d ∷ dirs) dir = text_beq d dir || holds dirs dir

abbrev listed : FileSystem
listed = record { State = List Bytes; access = holds; mkdir = λ s dir. some (dir ∷ s) }

made-equal : {s s' : List Bytes} {dir : Bytes} → listed.mkdir s dir ≡ some s' → dir ∷ s ≡ s'
made-equal {s} {s'} {dir} made = ap (λ o. elim o [ none ↦ s | some t ↦ t ]) made

listed-makes :
    (s s' : List Bytes) (dir : Bytes) → listed.mkdir s dir ≡ some s' → listed.access s' dir ≡ true
listed-makes s s' dir made =
    subst (λ t. holds t dir ≡ true) (made-equal made)
      (ground (arith, (text_beq_iff dir dir).1 refl))

listed-keeps :
    (s s' : List Bytes) (dir d : Bytes)
    → listed.mkdir s dir ≡ some s'
    → listed.access s d ≡ true
    → listed.access s' d ≡ true
listed-keeps s s' dir d made h = subst (λ t. holds t d ≡ true) (made-equal made) (ground (arith, h))

create_dir-makes_example :
    holds (create_dir listed (codes "a/b") []).0 (codes "a" ++ (slash ∷ [])) ≡ true
unfolding with_slash create_dir create_from create_one
create_dir-makes_example =
    create_dir-makes listed listed-makes listed-keeps (codes "a/b") (codes "a") (codes "b/") [] refl
      refl
