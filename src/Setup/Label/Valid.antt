-- ===== src/Setup/Label/Valid.antt =====
-- What deriveLabel gives is a label.
use lopen.Base.{
  ℕ, zero, suc, ◌≡◌, inl, inr, true, ◌||◌, [], ◌∷◌, ◌==◌, take, length-take, Bytes, All, arith,
  Bool-cases,
}
use lopen.Protocol.Validate.Exact.{IsWord, IsLabelChar, IsLabel}
use lopen.Setup.Label.{
  between, is_start, label_chars, rune_tail, first_part, strip_user, prefixed, derive_label,
}

is_start-IsWord : (c : ℕ) → is_start c ≡ true → IsWord c
unfolding is_start between
is_start-IsWord c h = ground arith

kept-IsLabelChar : (c : ℕ) → (is_start c || (c == b'-')) ≡ true → IsLabelChar c
unfolding is_start between
kept-IsLabelChar c h = ground arith

label_chars-All : (skip : ℕ) (s : Bytes) → All IsLabelChar (label_chars skip s)
unfolding label_chars
label_chars-All zero [] = tt
label_chars-All (suc skip) [] = tt
label_chars-All (suc skip) (c ∷ s) = label_chars-All skip s
label_chars-All zero (c ∷ s) = elim (Bool-cases (is_start c || (c == b'-'))) [
  | inl kept ↦ rw kept (kept-IsLabelChar c kept, label_chars-All zero s)
  | inr other ↦ rw other (omega arith, label_chars-All (rune_tail (c ∷ s)) s)
]

All-take : (P : ℕ → Type 0) (n : ℕ) (s : Bytes) → All P s → All P (take n s)
All-take P zero s h = tt
All-take P (suc n) [] h = tt
All-take P (suc n) (c ∷ s) (p, h) = (p, All-take P n s h)

-- A first byte of a word, and bytes of a label behind it.
abbrev IsLong : Bytes → Type 0
IsLong [] = ⊥
IsLong (c ∷ s) = IsWord c × All IsLabelChar s

prefixed-IsLong : (s : Bytes) → All IsLabelChar s → IsLong (prefixed s)
unfolding prefixed
prefixed-IsLong [] h = omega arith
prefixed-IsLong (c ∷ s) (p, h) = elim (Bool-cases (is_start c)) [
  | inl starts ↦ rw starts (is_start-IsWord c starts, h)
  | inr other ↦ rw other (omega arith, (omega arith, (omega arith, (omega arith, (p, h)))))
]

take-IsLong : (s : Bytes) → IsLong s → IsLabel (take 64 s)
take-IsLong [] h = absurd h
take-IsLong (c ∷ s) (p, h) = (p, omega (arith, length-take 63 s), All-take IsLabelChar 63 s h)

-- Whatever the destination is, deriveLabel gives a label of the required shape.
pub derive_label-IsLabel : (dest : Bytes) → IsLabel (derive_label dest)
unfolding derive_label
derive_label-IsLabel dest =
    take-IsLong (prefixed (label_chars 0 (first_part (strip_user dest dest)))) (
      prefixed-IsLong (label_chars 0 (first_part (strip_user dest dest)))
        (label_chars-All 0 (first_part (strip_user dest dest))))
