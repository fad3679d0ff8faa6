-- ===== src/Launchd/Escaped.antt =====
-- The text of an element of the plist, as a reader of XML takes it.
use lopen.Base.{
  ℕ, ◌≡◌, refl, ◌==◌, Option, none, some, [], ◌∷◌, ◌++◌, Bytes, codes, bytes_eq, if◌then◌else◌,
  arith, Bool-cases, inl, inr,
}
use lopen.Launchd.{xml_esc}

abbrev pub put : ℕ → Option (Bytes × Bytes) → Option (Bytes × Bytes)
put c none = none
put c (some (s, rest)) = some (c ∷ s, rest)

-- One of the three references that stand for a byte of the markup.
abbrev pub put_entity : Bytes → Option (Bytes × Bytes) → Option (Bytes × Bytes)
put_entity name more =
    if bytes_eq name (codes "amp")
    then put b'&' more
    else if bytes_eq name (codes "lt")
    then put b'<' more
    else if bytes_eq name (codes "gt")
    then put b'>' more
    else none

-- The text up to the next tag, and the tag with what is behind it. `name` is what was read of a
-- reference.
mutual
  pub text : Bytes → Option (Bytes × Bytes)
  text [] = none
  text (c ∷ s) =
      if c == b'<' then some ([], c ∷ s) else if c == b'&' then entity [] s else put c (text s)

  pub entity : Bytes → Bytes → Option (Bytes × Bytes)
  entity name [] = none
  entity name (c ∷ s) = if c == b';' then put_entity name (text s) else entity (name ++ c ∷ []) s

-- Whatever bytes an argument has, a reader of the plist finds them in its element, all of them, and
-- the tag behind them.
pub text-xml_esc : (s rest : Bytes) → text (xml_esc s ++ b'<' ∷ rest) ≡ some (s, b'<' ∷ rest)
unfolding text entity xml_esc bytes_eq
text-xml_esc [] rest = refl
text-xml_esc (c ∷ s) rest = elim (Bool-cases (c == b'&')) [
  | inl amp ↦ ground (arith, amp, text-xml_esc s rest)
  | inr not_amp ↦ elim (Bool-cases (c == b'<')) [
    | inl lt ↦ ground (arith, lt, text-xml_esc s rest)
    | inr not_lt ↦ elim (Bool-cases (c == b'>')) [
      | inl gt ↦ ground (arith, gt, text-xml_esc s rest)
      | inr not_gt ↦ ground (arith, not_amp, not_lt, not_gt, text-xml_esc s rest)
    ]
  ]
]
