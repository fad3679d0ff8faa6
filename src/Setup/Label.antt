-- ===== src/Setup/Label.antt =====
-- deriveLabel of internal/setup/setup.go. A Go string is ranged over by runes: a byte that starts no
-- valid sequence is a rune by itself.
pub mod Valid
use lopen.Base.{
  ℕ, zero, suc, ◌-◌, Bool, true, false, not, ◌&&◌, ◌||◌, [], ◌∷◌, ◌++◌, ◌==◌, leb, length, take,
  if◌then◌else◌, Bytes, codes,
}

unfoldable pub between : ℕ → ℕ → ℕ → Bool
between lo hi c = leb lo c && leb c hi

-- A continuation byte
unfoldable pub is_tail : ℕ → Bool
unfolding between
is_tail c = between 128 191 c

-- The second byte of a sequence of three or four bytes, by the first.
unfoldable pub second_fits : ℕ → ℕ → Bool
unfolding between is_tail
second_fits first c =
    if first == 224
    then between 160 191 c
    else if first == 237
    then between 128 159 c
    else if first == 240
    then between 144 191 c
    else if first == 244
    then between 128 143 c
    else is_tail c

-- How many bytes a rune takes behind its first (utf8.DecodeRune).
unfoldable pub rune_tail : Bytes → ℕ
unfolding between is_tail second_fits
rune_tail (a ∷ b ∷ c ∷ d ∷ s) =
    if between 194 223 a && is_tail b
    then 1
    else if between 224 239 a && (second_fits a b && is_tail c)
    then 2
    else if between 240 244 a && (second_fits a b && (is_tail c && is_tail d))
    then 3
    else 0
rune_tail (a ∷ b ∷ c ∷ []) =
    if between 194 223 a && is_tail b
    then 1
    else if between 224 239 a && (second_fits a b && is_tail c)
    then 2
    else 0
rune_tail (a ∷ b ∷ []) = if between 194 223 a && is_tail b then 1 else 0
rune_tail _ = 0

-- s[i+1:] for the first @ at i, or s
unfoldable pub strip_user : Bytes → Bytes → Bytes
strip_user whole [] = whole
strip_user whole (c ∷ s) = if c == b'@' then s else strip_user whole s

-- s[:i] for the first dot at i, or s
unfoldable pub first_part : Bytes → Bytes
first_part [] = []
first_part (c ∷ s) = let rest = c ∷ first_part s in if c == b'.' then [] else rest

-- [A-Za-z0-9_]
unfoldable pub is_start : ℕ → Bool
unfolding between
is_start c = between b'A' b'Z' c || between b'a' b'z' c || between b'0' b'9' c || (c == b'_')

-- The loop over the runes; `skip` bytes belong to the rune before.
unfoldable pub label_chars : ℕ → Bytes → Bytes
label_chars skip [] = []
label_chars (suc skip) (c ∷ s) = label_chars skip s
label_chars zero (c ∷ s) =
    let kept = c ∷ label_chars zero s in
    let replaced = b'-' ∷ label_chars (rune_tail (c ∷ s)) s in
    if is_start c || (c == b'-') then kept else replaced

unfoldable pub prefixed : Bytes → Bytes
prefixed [] = codes "host"
prefixed (c ∷ s) = if is_start c then c ∷ s else codes "host" ++ (c ∷ s)

unfoldable pub derive_label : Bytes → Bytes
derive_label dest = take 64 (prefixed (label_chars 0 (first_part (strip_user dest dest))))
