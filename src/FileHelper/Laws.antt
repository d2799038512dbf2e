-- ===== src/FileHelper/Laws.antt =====
-- What the functions on names and CopyFile compute.
use moveon.Base.{
  ℕ, zero, suc, ◌+◌, ◌-◌, ◌≡◌, ◌↔◌, refl, sym, ap, subst, ◌∙◌, [], ◌∷◌, ◌++◌, none, some, Bool,
  true, false, Bytes, text_beq_iff, leb, ◌==◌, if◌then◌else◌, length, take, drop, arith,
  length-append, All, drop-append,
}
use moveon.Base.Int.{pos, negsuc}
use moveon.FileHelper.Paths.{slash, find_last_slash, located, get_file_location, has_suffix}
use moveon.FileHelper.Copy.{copy_loop, copy_file}

-- A name without a slash.
abbrev pub Plain : Bytes → Type 0
Plain = All (λ c. (c == slash) ≡ false)

Plain-last : (name : Bytes) → Plain name → find_last_slash name ≡ none
unfolding find_last_slash
Plain-last [] p = refl
Plain-last (c ∷ cs) (differs, rest) = simp (Plain-last cs rest, differs) refl

last-append :
    (dir name : Bytes) → Plain name → find_last_slash (dir ++ (slash ∷ name)) ≡ some (length dir)
unfolding find_last_slash
last-append [] name p = simp (Plain-last name p) refl
last-append (c ∷ dir) name p = simp (last-append dir name p) refl

take-join : (dir name : Bytes) → take (length dir + 1) (dir ++ (slash ∷ name)) ≡ dir ++ (slash ∷ [])
take-join [] name = refl
take-join (c ∷ dir) name =
    let e : suc (length dir) + 1 ≡ suc (length dir + 1) = omega arith in
    ap (λ n. take n (c ∷ dir ++ (slash ∷ name))) e ∙ ap (λ xs. c ∷ xs) (take-join dir name)

-- The location of a file in a directory is the directory with its slash, and a name without a slash
-- gets one at its end.
pub get_file_location-Plain :
    (dir name : Bytes)
    → Plain name
    → (get_file_location (dir ++ (slash ∷ name)) ≡ dir ++ (slash ∷ []))
      × (get_file_location name ≡ name ++ (slash ∷ []))
unfolding get_file_location
get_file_location-Plain dir name p = (
  ap (located (dir ++ (slash ∷ name))) (last-append dir name p) ∙ take-join dir name,
  ap (located name) (Plain-last name p),
)

pub copy_loop-append : (content : Bytes) → copy_loop content ≡ content ++ (255 ∷ [])
unfolding copy_loop
copy_loop-append [] = refl
copy_loop-append (c ∷ content) = ap (λ xs. c ∷ xs) (copy_loop-append content)

-- A copy of a file is never the file: where both files open, the destination holds the content and
-- one more byte 255, whether the files close or not.
pub copy_file-append :
    (content : Bytes) (closes : Bool)
    → copy_file (some content) true closes
      ≡ ((if closes then pos 0 else negsuc 0), some (content ++ (255 ∷ [])))
unfolding copy_file
copy_file-append content closes =
    ap (λ xs. ((if closes then pos 0 else negsuc 0), some xs)) (copy_loop-append content)

take-drop : (n : ℕ) (xs : Bytes) → xs ≡ take n xs ++ drop n xs
take-drop zero xs = refl
take-drop (suc n) [] = refl
take-drop (suc n) (x ∷ xs) = ap (λ ys. x ∷ ys) (take-drop n xs)

both-hold : (a b : Bool) → (if a then b else false) ≡ true → b ≡ true
both-hold true b h = h
both-hold false b h = ground (arith, h)

has_suffix-append : (stem suffix : Bytes) → has_suffix (stem ++ suffix) suffix ≡ true
unfolding has_suffix
has_suffix-append stem suffix =
    let total = length-append stem suffix in
    let fits : leb (length suffix) (length (stem ++ suffix)) ≡ true = ground (arith, total) in
    let at : length (stem ++ suffix) - length suffix ≡ length stem = omega (arith, total) in
    simp (fits, at, drop-append stem suffix, (text_beq_iff suffix suffix).1 refl) refl

-- A file is chosen exactly when its name is some stem with the suffix behind it.
pub has_suffix_iff :
    (file suffix : Bytes)
    → (has_suffix file suffix ≡ true) ↔ ((stem : Bytes) × (file ≡ stem ++ suffix))
unfolding has_suffix
has_suffix_iff file suffix =
    let n = length file - length suffix in
    (
      (λ h. (
        take n file,
        take-drop n file
            ∙ ap (λ xs. take n file ++ xs)
                ((text_beq_iff (drop n file) suffix).0
                  (both-hold (leb (length suffix) (length file)) _ h)),
      )),
      λ (stem, e). subst (λ f. has_suffix f suffix ≡ true) (sym e) (has_suffix-append stem suffix),
    )
