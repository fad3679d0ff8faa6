-- ===== src/Config/Dest.antt =====
-- Which ssh destinations the pattern destRe accepts.
use lopen.Base.{
  ℕ, true, ◌&&◌, none, some, [], ◌∷◌, ◌++◌, ◌==◌, all, Bytes, All, ◌≡◌, ◌≢◌, ◌↔◌, ◌⊎◌, inl, inr,
  refl, arith, Bool-cases, &&-true, false≢true, Option-cases,
}
use lopen.Protocol.Validate.Exact.{InRange}
use lopen.Config.{is_dest_start, is_dest_char, dest_part, cut_user, valid_dest}

abbrev pub IsDestStart : ℕ → Type 0
IsDestStart c =
    InRange b'A' b'Z' c ⊎ InRange b'a' b'z' c ⊎ InRange b'0' b'9' c ⊎ (c ≡ b'.') ⊎ (c ≡ b'_')

abbrev pub IsDestChar : ℕ → Type 0
IsDestChar c = IsDestStart c ⊎ (c ≡ b'-')

-- A user or a host: not empty, of letters, digits, dots, dashes and underscores, and no dash first.
abbrev pub IsPart : Bytes → Type 0
IsPart [] = ⊥
IsPart (c ∷ s) = IsDestStart c × All IsDestChar s

start_iff : (c : ℕ) → (is_dest_start c ≡ true) ↔ IsDestStart c
unfolding is_dest_start
start_iff c = ground arith

char_iff : (c : ℕ) → (is_dest_char c ≡ true) ↔ IsDestChar c
unfolding is_dest_char
char_iff c = ground arith

chars_iff : (s : Bytes) → (all is_dest_char s ≡ true) ↔ All IsDestChar s
chars_iff [] = (λ h. tt, λ h. refl)
chars_iff (c ∷ s) = ground (arith, char_iff c, chars_iff s)

IsPart-iff : (s : Bytes) → (dest_part s ≡ true) ↔ IsPart s
unfolding dest_part
IsPart-iff [] = (λ h. false≢true h, λ h. absurd h)
IsPart-iff (c ∷ s) = ground (arith, start_iff c, chars_iff s)

abbrev Lacks : Bytes → Type 0
Lacks = All (λ c. c ≢ b'@')

chars-Lacks : (s : Bytes) → All IsDestChar s → Lacks s
chars-Lacks [] h = tt
chars-Lacks (c ∷ s) (here, rest) = (ground arith, chars-Lacks s rest)

part-Lacks : (s : Bytes) → IsPart s → Lacks s
part-Lacks [] h = absurd h
part-Lacks (c ∷ s) (here, rest) = (ground arith, chars-Lacks s rest)

cut_user-Lacks : (s : Bytes) → Lacks s → cut_user s ≡ none
unfolding cut_user
cut_user-Lacks [] h = refl
cut_user-Lacks (c ∷ s) (here, rest) = ground (arith, cut_user-Lacks s rest)

cut_user-append : (u h : Bytes) → Lacks u → cut_user (u ++ b'@' ∷ h) ≡ some (u, h)
unfolding cut_user
cut_user-append [] h l = refl
cut_user-append (c ∷ u) h (here, rest) = ground (arith, cut_user-append u h rest)

cut_user-some : (s u h : Bytes) → cut_user s ≡ some (u, h) → s ≡ u ++ b'@' ∷ h
unfolding cut_user
cut_user-some [] u h e = cc
cut_user-some (c ∷ s) u h e = elim (Bool-cases (c == b'@')) [
  | inl at ↦ ground (arith, e, at)
  | inr other ↦ elim (Option-cases (cut_user s)) [
    | inl cut ↦ ground (arith, e, other, cut)
    | inr ((v, k), cut) ↦ ground (arith, e, other, cut, cut_user-some s v k cut)
  ]
]

-- A destination passes exactly when it is a host, or a user and a host with an @ between them: each
-- starts with a letter, a digit, a dot or an underscore, and goes on with those and dashes. So it
-- never starts with a dash, and holds no blank and nothing that a shell reads as syntax.
pub valid_dest_iff :
    (s : Bytes)
    → (valid_dest s ≡ true)
      ↔ (IsPart s ⊎ ((u : Bytes) × (h : Bytes) × (s ≡ u ++ b'@' ∷ h) × IsPart u × IsPart h))
unfolding valid_dest
valid_dest_iff s = (
  λ e. elim (Option-cases (cut_user s)) [
    | inl cut ↦ inl ((IsPart-iff s).0 (ground (arith, e, cut)))
    | inr ((u, h), cut) ↦
        let both : (dest_part u && dest_part h) ≡ true = ground (arith, e, cut) in
        let (pu, ph) = &&-true (dest_part u) (dest_part h) both in
        inr (u, h, cut_user-some s u h cut, (IsPart-iff u).0 pu, (IsPart-iff h).0 ph)
  ],
  λ e. elim e [
    | inl p ↦ rw (cut_user-Lacks s (part-Lacks s p), valid_dest) ((IsPart-iff s).1 p)
    | inr (u, h, cut, pu, ph) ↦
        rw (cut, cut_user-append u h (part-Lacks u pu), valid_dest)
          (rw ((IsPart-iff u).1 pu) ((IsPart-iff h).1 ph))
  ],
)
