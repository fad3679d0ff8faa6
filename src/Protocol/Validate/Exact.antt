-- ===== src/Protocol/Validate/Exact.antt =====
-- What `Validate` accepts, described by ranges of characters and numbers.
use lopen.Base.{
  ℕ, ◌≤◌, ◌<◌, ◌^◌, ◌≡◌, ◌≢◌, refl, ◌↔◌, ◌⊎◌, inl, Bool, true, false, not, ◌&&◌, ◌||◌, none, [],
  ◌∷◌, leb, length, all, any, All, &&-true, Bytes, bytes_eq, bytes_eq_iff, Int64, lt64, lt64_bounds,
  arith, false≢true, leb→le, le→leb,
}
use lopen.Protocol.{
  Request, version, op_open, op_reveal, mode_inline, mode_pull, valid_label, valid_app, is_word,
  is_label_char, is_app_start, is_app_char, anchored,
}
use lopen.Protocol.Validate.{not_absolute, is_control, is_empty, validate}

abbrev pub InRange : ℕ → ℕ → ℕ → Type 0
InRange lo hi c = (lo ≤ c) × (c ≤ hi)

abbrev pub IsWord : ℕ → Type 0
IsWord c = InRange b'A' b'Z' c ⊎ InRange b'a' b'z' c ⊎ InRange b'0' b'9' c ⊎ (c ≡ b'_')

abbrev pub IsLabelChar : ℕ → Type 0
IsLabelChar c = IsWord c ⊎ (c ≡ b'.') ⊎ (c ≡ b'-')

abbrev pub IsAppStart : ℕ → Type 0
IsAppStart c = IsWord c ⊎ (c ≡ b' ') ⊎ (c ≡ b'.')

abbrev pub IsAppChar : ℕ → Type 0
IsAppChar c = IsAppStart c ⊎ (c ≡ b'-')

-- One character of the first kind, then at most `limit` of the second.
abbrev pub Anchored : (ℕ → Type 0) → (ℕ → Type 0) → ℕ → Bytes → Type 0
Anchored First More limit [] = ⊥
Anchored First More limit (c ∷ s) = First c × (length s ≤ limit) × All More s

abbrev pub IsLabel : Bytes → Type 0
IsLabel = Anchored IsWord IsLabelChar 63

abbrev pub IsApp : Bytes → Type 0
IsApp = Anchored IsAppStart IsAppChar 127

abbrev pub IsPlainByte : ℕ → Type 0
IsPlainByte c = (c ≢ 0) × (c ≢ b'\n') × (c ≢ b'\r')

abbrev pub IsAbsolute : Bytes → Type 0
IsAbsolute [] = ⊥
IsAbsolute (c ∷ s) = c ≡ b'/'

pub record IsWellFormed (r : Request) (max_payload : Int64) : Type 0 where
  pub known_version : r.v ≡ version
  pub known_op : (r.op ≡ op_open) ⊎ (r.op ≡ op_reveal)
  pub known_mode : (r.mode ≡ mode_inline) ⊎ (r.mode ≡ mode_pull)
  pub label : IsLabel r.origin.label
  pub absolute : IsAbsolute r.path
  pub short : length r.path ≤ 4096
  pub plain : All IsPlainByte r.path
  pub app : (r.app ≡ []) ⊎ IsApp r.app
  pub size : r.size ≤ max_payload

module _ (p : ℕ → Bool) (P : ℕ → Type 0) (same : (c : ℕ) → (p c ≡ true) ↔ P c) where
  all_sound : (s : Bytes) → all p s ≡ true → All P s
  all_sound [] h = tt
  all_sound (c ∷ s) h =
      let (here, rest) = &&-true (p c) (all p s) h in ((same c).0 here, all_sound s rest)

  all_complete : (s : Bytes) → All P s → all p s ≡ true
  all_complete [] h = refl
  all_complete (c ∷ s) (here, rest) = ground (arith, (same c).1 here, all_complete s rest)

is_word_iff : (c : ℕ) → (is_word c ≡ true) ↔ IsWord c
unfolding is_word
is_word_iff c = ground arith

is_label_char_iff : (c : ℕ) → (is_label_char c ≡ true) ↔ IsLabelChar c
unfolding is_label_char
is_label_char_iff c = ground (arith, is_word_iff c)

is_app_start_iff : (c : ℕ) → (is_app_start c ≡ true) ↔ IsAppStart c
unfolding is_app_start
is_app_start_iff c = ground (arith, is_word_iff c)

is_app_char_iff : (c : ℕ) → (is_app_char c ≡ true) ↔ IsAppChar c
unfolding is_app_char
is_app_char_iff c = ground (arith, is_app_start_iff c)

module _ (first more : ℕ → Bool) (First More : ℕ → Type 0) (limit : ℕ)
    (first_iff : (c : ℕ) → (first c ≡ true) ↔ First c)
    (more_iff : (c : ℕ) → (more c ≡ true) ↔ More c) where
  anchored_iff : (s : Bytes) → (anchored first more limit s ≡ true) ↔ Anchored First More limit s
  unfolding anchored
  anchored_iff [] = (λ h. false≢true h, λ h. absurd h)
  anchored_iff (c ∷ s) = (
    λ h.
        let (f, r) = &&-true (first c) (leb (length s) limit && all more s) h in
        let (l, m) = &&-true (leb (length s) limit) (all more s) r in
        ((first_iff c).0 f, leb→le _ _ l, all_sound more More more_iff s m),
    λ h. rw ((first_iff c).1 h.0, le→leb _ _ h.1, all_complete more More more_iff s h.2),
  )

-- The label pattern accepts exactly the texts of that shape.
pub valid_label_iff : (s : Bytes) → (valid_label s ≡ true) ↔ IsLabel s
unfolding valid_label
valid_label_iff =
    anchored_iff is_word is_label_char IsWord IsLabelChar 63 is_word_iff is_label_char_iff

pub valid_app_iff : (s : Bytes) → (valid_app s ≡ true) ↔ IsApp s
unfolding valid_app
valid_app_iff =
    anchored_iff is_app_start is_app_char IsAppStart IsAppChar 127 is_app_start_iff is_app_char_iff

is_control_iff : (c : ℕ) → (is_control c ≡ false) ↔ IsPlainByte c
unfolding is_control
is_control_iff c = ground arith

plain_iff : (s : Bytes) → (any is_control s ≡ false) ↔ All IsPlainByte s
plain_iff [] = (λ h. tt, λ h. refl)
plain_iff (c ∷ s) = ground (arith, is_control_iff c, plain_iff s)

IsAbsolute-iff : (s : Bytes) → (not_absolute s ≡ false) ↔ IsAbsolute s
unfolding not_absolute
IsAbsolute-iff [] = ground arith
IsAbsolute-iff (c ∷ s) = ground arith

IsApp-iff : (s : Bytes) → ((not (is_empty s) && not (valid_app s)) ≡ false) ↔ ((s ≡ []) ⊎ IsApp s)
unfolding is_empty
IsApp-iff [] = (λ h. inl refl, λ h. refl)
IsApp-iff (c ∷ s) = ground (arith, valid_app_iff (c ∷ s))

either_iff : (a x y : Bytes) → (not (bytes_eq a x || bytes_eq a y) ≡ false) ↔ ((a ≡ x) ⊎ (a ≡ y))
either_iff a x y = ground (arith, bytes_eq_iff a x, bytes_eq_iff a y)

size_iff : (a m : Int64) → a < 2 ^ 64 → m < 2 ^ 63 → ((lt64 a 0 || lt64 m a) ≡ false) ↔ (a ≤ m)
size_iff a m ha hm = ground (arith, lt64_bounds a m ha hm)

validate_sound :
    (r : Request) (m : Int64)
    → r.size < 2 ^ 64
    → m < 2 ^ 63
    → validate r m ≡ none
    → IsWellFormed r m
unfolding validate
validate_sound r m hs hm h = ground (
  arith,
  either_iff r.op op_open op_reveal,
  either_iff r.mode mode_inline mode_pull,
  valid_label_iff r.origin.label,
  IsAbsolute-iff r.path,
  plain_iff r.path,
  IsApp-iff r.app,
  size_iff r.size m hs hm,
)

validate_complete :
    (r : Request) (m : Int64)
    → r.size < 2 ^ 64
    → m < 2 ^ 63
    → IsWellFormed r m
    → validate r m ≡ none
unfolding validate
validate_complete r m hs hm w = ground (
  arith,
  either_iff r.op op_open op_reveal,
  either_iff r.mode mode_inline mode_pull,
  valid_label_iff r.origin.label,
  IsAbsolute-iff r.path,
  plain_iff r.path,
  IsApp-iff r.app,
  size_iff r.size m hs hm,
)

-- A request passes `Validate` exactly when it is well formed: version 1, a known operation and
-- mode, a label and an app name of the required shapes, an absolute path of at most 4096 bytes
-- without NUL, LF or CR, and a declared size from 0 to the limit. The size is any int64, the limit
-- is not negative.
pub validate_iff :
    (r : Request) (m : Int64)
    → r.size < 2 ^ 64
    → m < 2 ^ 63
    → (validate r m ≡ none) ↔ IsWellFormed r m
validate_iff r m hs hm = (validate_sound r m hs hm, validate_complete r m hs hm)
