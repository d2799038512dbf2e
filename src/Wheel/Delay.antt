-- ===== src/Wheel/Delay.antt =====
-- The wheel as arithmetic: when the pointer of 100 positions, which runs through 1 to 100, meets a
-- slot for the (c + 1)-th time.
use moveon.Base.{
  ℕ, zero, suc, ◌+◌, ◌-◌, ◌*◌, ◌%◌, ◌≤◌, ◌<◌, ◌≡◌, refl, Bool, true, false, ◌&&◌, ◌==◌, ltb, leb,
  arith, if◌then◌else◌, Option, none, some,
}
use moveon.Base.Int.{ℤ, pos, negsuc, decr, eq_ℤ, is_negative}

abbrev pub next_scale : ℕ → ℕ
next_scale scale = if scale == 100 then 1 else scale + 1

-- The ticks until the pointer is next at the slot.
abbrev pub distance : ℕ → ℕ → ℕ
distance scale slot = if ltb scale slot then slot - scale else slot + 100 - scale

-- Whether the tick after `n` ticks meets the slot with the count at 0.
unfoldable pub meets : ℕ → ℕ → ℕ → ℤ → Bool
meets zero scale slot c = (next_scale scale == slot) && eq_ℤ c (pos 0)
meets (suc n) scale slot c =
    meets n (next_scale scale) slot (if next_scale scale == slot then decr c else c)

-- The count after `n` ticks.
unfoldable pub count_after : ℕ → ℕ → ℕ → ℤ → ℤ
count_after zero scale slot c = c
count_after (suc n) scale slot c =
    count_after n (next_scale scale) slot (if next_scale scale == slot then decr c else c)

pub meets-negsuc : (n scale slot k : ℕ) → meets n scale slot (negsuc k) ≡ false
unfolding meets
meets-negsuc zero scale slot k = ground arith
meets-negsuc (suc n) scale slot k = ground (
  arith,
  meets-negsuc n (next_scale scale) slot k,
  meets-negsuc n (next_scale scale) slot (suc k),
)

pub meets_lem :
    (n scale slot c : ℕ)
    → 1 ≤ scale
    → scale ≤ 100
    → 1 ≤ slot
    → slot < 100
    → meets n scale slot (pos c) ≡ (suc n == distance scale slot + 100 * c)
unfolding meets
meets_lem zero scale slot c a b d e = ground arith
meets_lem (suc n) scale slot zero a b d e =
    ground (arith, meets_lem n (next_scale scale) slot 0, meets-negsuc n (next_scale scale) slot 0)
meets_lem (suc n) scale slot (suc c) a b d e =
    ground
      (arith, meets_lem n (next_scale scale) slot c, meets_lem n (next_scale scale) slot (suc c))

-- The pointer is never at 0.
pub meets-zero : (n scale : ℕ) (c : ℤ) → 1 ≤ scale → meets n scale 0 c ≡ false
unfolding meets
meets-zero zero scale c a = ground arith
meets-zero (suc n) scale c a = ground (arith, meets-zero n (next_scale scale) c)

negative-negsuc : (n scale slot k : ℕ) → is_negative (count_after n scale slot (negsuc k)) ≡ true
unfolding count_after
negative-negsuc zero scale slot k = refl
negative-negsuc (suc n) scale slot k = ground (
  arith,
  negative-negsuc n (next_scale scale) slot k,
  negative-negsuc n (next_scale scale) slot (suc k),
)

pub negative_lem :
    (n scale slot c : ℕ)
    → 1 ≤ scale
    → scale ≤ 100
    → 1 ≤ slot
    → slot < 100
    → is_negative (count_after n scale slot (pos c)) ≡ leb (distance scale slot + 100 * c) n
unfolding count_after
negative_lem zero scale slot c a b d e = ground arith
negative_lem (suc n) scale slot zero a b d e =
    ground
      (arith, negative_lem n (next_scale scale) slot 0, negative-negsuc n (next_scale scale) slot 0)
negative_lem (suc n) scale slot (suc c) a b d e = ground (
  arith,
  negative_lem n (next_scale scale) slot c,
  negative_lem n (next_scale scale) slot (suc c),
)

pub count_after-zero : (n scale : ℕ) (c : ℤ) → 1 ≤ scale → count_after n scale 0 c ≡ c
unfolding count_after
count_after-zero zero scale c a = refl
count_after-zero (suc n) scale c a = ground (arith, count_after-zero n (next_scale scale) c)

-- After how many ticks a timer of `ms` milliseconds that is set at `scale` fires, if ever.
abbrev pub fires_after : ℕ → ℕ → Option ℕ
fires_after ms scale =
    let slot = (ms + scale) % 100 in
    if slot == 0 then none else if ltb scale slot then some ms else some (ms + 100)
