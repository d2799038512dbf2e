-- ===== src/Message/Typed.antt =====
-- What the readers of lists can give, whatever the message.
use moveon.Base.{
  ℕ, ◌≤◌, ◌<◌, ◌≡◌, List, [], ◌∷◌, ◌++◌, Bytes, All, length, Outcome, ok, undefined, thrown,
}
use moveon.Message.Edits.{IsBytes}

-- If the call returns, its result satisfies the predicate.
abbrev pub Gives {ℓ κ} : {A : Type ℓ} → (A → Type κ) → Outcome A → Type κ
Gives P (ok a) = P a
Gives P undefined = Unit
Gives P thrown = Unit

IsAny : ℕ → Type 0
IsAny n = Unit

-- A copy of bytes, of the length that was asked for.
abbrev IsCopy : ℕ → Bytes → Type 0
IsCopy n s = (length s ≡ n) × IsBytes s

-- Texts of bytes, so many, each of a length at least `k`.
abbrev HasTexts : ℕ → ℕ → List Bytes → Type 0
HasTexts k n ts = (length ts ≡ n) × All (λ s. (k ≤ length s) × IsBytes s) ts

-- At most 255 of them, which is what a count of one byte can say.
abbrev pub IsTexts : ℕ → List Bytes → Type 0
IsTexts k ts = (length ts < 256) × All (λ s. (k ≤ length s) × IsBytes s) ts

module _ (beyond text : Bytes) (h : IsBytes text) where
  abbrev block : Bytes
  block = text ++ (0 ∷ [])
