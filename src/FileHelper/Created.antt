-- ===== src/FileHelper/Created.antt =====
-- What CreateDir leaves, over a file system where a directory that `mkdir` made can be accessed,
-- and no other becomes inaccessible by it.
use moveon.Base.{
  ℕ, ◌≡◌, refl, sym, ap, subst, ◌∙◌, [], ◌∷◌, ◌++◌, none, some, Bool, true, false, Bytes, ◌==◌,
  Option-cases, inl, inr, arith, append_assoc,
}
use moveon.Base.Int.{pos}
use moveon.FileHelper.Paths.{slash}
use moveon.FileHelper.Dirs.{
  FileSystem, with_slash, made_unless, create_one, visit_if, create_from, create_dir,
}

some-injective {ℓ} : {A : Type ℓ} {a b : A} → some a ≡ some b → a ≡ b
some-injective {a} h = ap (λ o. elim o [ none ↦ a | some c ↦ c ]) h

-- A round of the loop, by what its visit gives.
module _ (fs : FileSystem) where
  pub create_from-some :
      (done : Bytes) (c : ℕ) (rest : Bytes) (s s' : fs.State)
      → visit_if fs done c s (c == slash) ≡ some s'
      → create_from fs done (c ∷ rest) s ≡ create_from fs (done ++ (c ∷ [])) rest s'
  unfolding create_from
  create_from-some done c rest s s' e =
      ap (λ o. elim o [ none ↦ (s, false) | some t ↦ create_from fs (done ++ (c ∷ [])) rest t ]) e

  pub create_from-none :
      (done : Bytes) (c : ℕ) (rest : Bytes) (s : fs.State)
      → visit_if fs done c s (c == slash) ≡ none
      → create_from fs done (c ∷ rest) s ≡ (s, false)
  unfolding create_from
  create_from-none done c rest s e =
      ap (λ o. elim o [ none ↦ (s, false) | some t ↦ create_from fs (done ++ (c ∷ [])) rest t ]) e

module _ (fs : FileSystem)
    (makes : (s s' : fs.State) (dir : Bytes) → fs.mkdir s dir ≡ some s' → fs.access s' dir ≡ true)
    (keeps : (s s' : fs.State) (dir d : Bytes)
      → fs.mkdir s dir ≡ some s'
      → fs.access s d ≡ true
      → fs.access s' d ≡ true) where
  made-keeps :
      (s s' : fs.State) (dir d : Bytes) (b : Bool)
      → made_unless fs s dir b ≡ some s'
      → fs.access s d ≡ true
      → fs.access s' d ≡ true
  made-keeps s s' dir d true made h = subst (λ x. fs.access x d ≡ true) (some-injective made) h
  made-keeps s s' dir d false made h = keeps s s' dir d made h

  made-makes :
      (s s' : fs.State) (dir : Bytes) (b : Bool)
      → fs.access s dir ≡ b
      → made_unless fs s dir b ≡ some s'
      → fs.access s' dir ≡ true
  made-makes s s' dir true there made =
      subst (λ x. fs.access x dir ≡ true) (some-injective made) there
  made-makes s s' dir false there made = makes s s' dir made

  visit-keeps :
      (done : Bytes) (c : ℕ) (s s' : fs.State) (d : Bytes) (b : Bool)
      → visit_if fs done c s b ≡ some s'
      → fs.access s d ≡ true
      → fs.access s' d ≡ true
  unfolding create_one
  visit-keeps done c s s' d true made h =
      made-keeps s s' (done ++ (c ∷ [])) d (fs.access s (done ++ (c ∷ []))) made h
  visit-keeps done c s s' d false made h = subst (λ x. fs.access x d ≡ true) (some-injective made) h

  create_from-keeps :
      (done rest : Bytes) (s : fs.State) (d : Bytes)
      → fs.access s d ≡ true
      → fs.access (create_from fs done rest s).0 d ≡ true
  unfolding create_from
  create_from-keeps done [] s d h = h
  create_from-keeps done (c ∷ rest) s d h =
      elim (Option-cases (visit_if fs done c s (c == slash))) [
        | inl failed ↦
            subst (λ r. fs.access r.0 d ≡ true) (sym (create_from-none fs done c rest s failed)) h
        | inr (s', made) ↦
            subst (λ r. fs.access r.0 d ≡ true) (sym (create_from-some fs done c rest s s' made))
              (create_from-keeps (done ++ (c ∷ [])) rest s' d
                (visit-keeps done c s s' d (c == slash) made h))
      ]

  create_from-makes :
      (done front back : Bytes) (s : fs.State)
      → (create_from fs done (front ++ (slash ∷ back)) s).1 ≡ true
      → fs.access
          (create_from fs done (front ++ (slash ∷ back)) s).0
          (done ++ (front ++ (slash ∷ [])))
        ≡ true
  unfolding create_one
  create_from-makes done [] back s h =
      elim (Option-cases (create_one fs s (done ++ (slash ∷ [])))) [
        | inl failed ↦
            ground (arith, h, ap (λ r. r.1) (create_from-none fs done slash back s failed))
        | inr (s', made) ↦
            subst (λ r. fs.access r.0 (done ++ (slash ∷ [])) ≡ true)
              (sym (create_from-some fs done slash back s s' made))
              (create_from-keeps (done ++ (slash ∷ [])) back s' (done ++ (slash ∷ [])) (
                made-makes s s' (done ++ (slash ∷ [])) (fs.access s (done ++ (slash ∷ []))) refl
                  made))
      ]
  create_from-makes done (c ∷ front) back s h =
      let rest = front ++ (slash ∷ back) in
      elim (Option-cases (visit_if fs done c s (c == slash))) [
        | inl failed ↦ ground (arith, h, ap (λ r. r.1) (create_from-none fs done c rest s failed))
        | inr (s', made) ↦
            let e = create_from-some fs done c rest s s' made in
            subst (λ r. fs.access r.0 (done ++ (c ∷ front ++ (slash ∷ []))) ≡ true) (sym e)
              (subst (λ d. fs.access (create_from fs (done ++ (c ∷ [])) rest s').0 d ≡ true)
                (append_assoc done (c ∷ []) (front ++ (slash ∷ [])))
                (create_from-makes (done ++ (c ∷ [])) front back s' (sym (ap (λ r. r.1) e) ∙ h)))
      ]

  -- Where `create_dir` answers 0, every directory along the name can be accessed afterwards: each
  -- part of it that ends in a slash.
  pub create_dir-makes :
      (name front back : Bytes) (s : fs.State)
      → with_slash name ≡ front ++ (slash ∷ back)
      → (create_dir fs name s).1 ≡ pos 0
      → fs.access (create_dir fs name s).0 (front ++ (slash ∷ [])) ≡ true
  unfolding create_dir
  create_dir-makes name front back s e h =
      subst
        (λ text.
          (create_from fs [] text s).1 ≡ true
          → fs.access (create_from fs [] text s).0 (front ++ (slash ∷ [])) ≡ true)
        (sym e) (create_from-makes [] front back s) (ground (arith, h))
