-- ===== src/Base/Memory.antt =====
-- Reads of a block of memory: `slice` is a copy of `n` bytes at an offset, and a read that leaves
-- the block is undefined.
use Prim.Native.Nat.{ℕ, suc, ◌+◌, ◌≤◌}
use mathlib.Core.Path.{◌≡◌, refl, ◌∙◌, ap, sym}
use mathlib.Core.List.{append_assoc, [], ◌∷◌, List, ◌++◌}
use mathlib.Core.Logic.{◌⊎◌, inl, inr}
use native.Mathlib.Omega.{arith}
use moveon.Base.Tests.{leb, le→leb, if◌then◌else◌, Bool-cases}
use moveon.Base.Lists.{
  length, take, drop, length-append, take-append_le, drop-append_le, drop-append_add, length-drop,
}
use moveon.Base.Words.{of_le}
use moveon.Base.Results.{Outcome, ok, undefined, ◌>>=◌}

abbrev pub Bytes : Type 0
Bytes = List ℕ

unfoldable pub slice : Bytes → ℕ → ℕ → Outcome Bytes
slice block offset n =
    if leb (offset + n) (length block) then ok (take n (drop offset block)) else undefined

unfoldable pub read_u8 : Bytes → ℕ → Outcome ℕ
read_u8 block offset = do bytes ← slice block offset 1; ok (of_le bytes)

unfoldable pub read_u16 : Bytes → ℕ → Outcome ℕ
read_u16 block offset = do bytes ← slice block offset 2; ok (of_le bytes)

unfoldable pub read_u32 : Bytes → ℕ → Outcome ℕ
read_u32 block offset = do bytes ← slice block offset 4; ok (of_le bytes)

-- A read past the end is undefined.
pub slice-past :
    (block : Bytes) (offset n : ℕ)
    → suc (length block) ≤ offset + n
    → slice block offset n ≡ undefined
unfolding slice
slice-past block offset n h = ground arith

-- A read is undefined, or it gives bytes.
pub slice-cases :
    (block : Bytes) (offset n : ℕ)
    → (slice block offset n ≡ undefined) ⊎ ((b : Bytes) × (slice block offset n ≡ ok b))
unfolding slice
slice-cases block offset n = elim (Bool-cases (leb (offset + n) (length block))) [
  | inl fits ↦ inr (take n (drop offset block), rw fits)
  | inr past ↦ inl (rw past)
]

-- A read inside the middle part of a block is a read of that part.
pub slice-inside :
    (before part after : Bytes) (offset k n : ℕ)
    → offset ≡ length before + k
    → k + n ≤ length part
    → slice (before ++ (part ++ after)) offset n ≡ ok (take n (drop k part))
unfolding slice
slice-inside before part after offset k n e h =
    rw (e, le→leb _ _ fits)
      (ap ok (ap (take n) shifted ∙ take-append_le n (drop k part) after room))
  where
    fits : length before + k + n ≤ length (before ++ (part ++ after))
    fits = omega (arith, length-append before (part ++ after), length-append part after)

    shifted : drop (length before + k) (before ++ (part ++ after)) ≡ drop k part ++ after
    shifted = drop-append_add k before (part ++ after) ∙ drop-append_le k part after (omega arith)

    room : n ≤ length (drop k part)
    room = omega (arith, length-drop k part)

-- A block holds `part` at `offset`.
pub record Holds (block : Bytes) (offset : ℕ) (part : Bytes) : Type 0 where
  pub before : Bytes
  pub after : Bytes
  pub split : block ≡ before ++ (part ++ after)
  pub at_offset : offset ≡ length before

pub Holds-left :
    {block : Bytes} {offset : ℕ} (p q : Bytes) → Holds block offset (p ++ q) → Holds block offset p
Holds-left p q h = record {
  before = h.before;
  after = q ++ h.after;
  split = h.split ∙ ap (◌++◌ h.before) (append_assoc p q h.after);
  at_offset = h.at_offset;
}

pub Holds-right :
    {block : Bytes} {offset : ℕ} (p q : Bytes)
    → Holds block offset (p ++ q)
    → Holds block (offset + length p) q
Holds-right p q h = record {
  before = h.before ++ p;
  after = h.after;
  split =
      h.split
      ∙ ap (◌++◌ h.before) (append_assoc p q h.after)
      ∙ sym (append_assoc h.before p (q ++ h.after));
  at_offset = omega (arith, h.at_offset, length-append h.before p);
}

pub Holds-slice :
    {block : Bytes} {offset : ℕ} (part : Bytes) (k n : ℕ)
    → Holds block offset part
    → k + n ≤ length part
    → slice block (offset + k) n ≡ ok (take n (drop k part))
Holds-slice part k n h fits =
    rw (h.split, h.at_offset) (slice-inside h.before part h.after _ k n refl fits)

take-length : (xs : Bytes) → take (length xs) xs ≡ xs
take-length [] = refl
take-length (x ∷ xs) = ap (◌∷◌ x) (take-length xs)

-- The copy of a whole part.
pub Holds-slice_all :
    {block : Bytes} {offset : ℕ} (part : Bytes) (n : ℕ)
    → Holds block offset part
    → n ≡ length part
    → slice block offset n ≡ ok part
Holds-slice_all part n h e =
    rw (h.split, h.at_offset, e)
      (slice-inside h.before part h.after _ 0 (length part) (omega arith) (omega arith)
        ∙ ap ok (take-length part))

module _ {block : Bytes} {offset : ℕ} (part : Bytes) (k : ℕ) (h : Holds block offset part) where
  pub Holds-read_u8 :
      k + 1 ≤ length part → read_u8 block (offset + k) ≡ ok (of_le (take 1 (drop k part)))
  unfolding read_u8
  Holds-read_u8 fits = rw (Holds-slice part k 1 h fits)

  pub Holds-read_u16 :
      k + 2 ≤ length part → read_u16 block (offset + k) ≡ ok (of_le (take 2 (drop k part)))
  unfolding read_u16
  Holds-read_u16 fits = rw (Holds-slice part k 2 h fits)

  pub Holds-read_u32 :
      k + 4 ≤ length part → read_u32 block (offset + k) ≡ ok (of_le (take 4 (drop k part)))
  unfolding read_u32
  Holds-read_u32 fits = rw (Holds-slice part k 4 h fits)

pub slice-fits :
    (block : Bytes) (offset n : ℕ)
    → offset + n ≤ length block
    → slice block offset n ≡ ok (take n (drop offset block))
unfolding slice
slice-fits block offset n h = rw (le→leb _ _ h)
