-- ===== src/Daemon/GuiOpener/Trim.antt =====
-- What strings.Trim leaves of a value of the environment block.
use mathlib.Core.List.{reverse, reverse-append, reverse-reverse, reverse-cons}
use lopen.Base.{
  ℕ, [], ◌∷◌, ◌++◌, Bytes, All, All-append, ◌≡◌, ◌⊎◌, inl, inr, refl, ap, sym, ◌∙◌, subst,
  Bool-cases, arith,
}
use lopen.Daemon.GuiOpener.{is_quote, trim_left, trim_quotes}

abbrev pub IsQuote : ℕ → Type 0
IsQuote c = (c ≡ b'"') ⊎ (c ≡ b'\'')

-- No quote stands in front.
abbrev pub Bare : Bytes → Type 0
Bare [] = Unit
Bare (c ∷ s) = ¬ IsQuote c

-- `kept` is what is left of the bytes without the quotes at their ends.
pub record IsTrimmed (s kept : Bytes) : Type 0 where
  pub left : Bytes
  pub right : Bytes
  pub parts : s ≡ left ++ (kept ++ right)
  pub left_quotes : All IsQuote left
  pub right_quotes : All IsQuote right
  pub bare_left : Bare kept
  pub bare_right : Bare (reverse kept)

record IsCut (s kept : Bytes) : Type 0 where
  left : Bytes
  parts : s ≡ left ++ kept
  quotes : All IsQuote left
  bare : Bare kept

trim_left-IsCut : (s : Bytes) → IsCut s (trim_left s)
unfolding trim_left
trim_left-IsCut [] = record { left = []; parts = refl; quotes = tt; bare = tt }
trim_left-IsCut (c ∷ s) =
    let rest = trim_left-IsCut s in
    elim (Bool-cases (is_quote c)) [
      | inl quote ↦ rw quote (record {
        left = c ∷ rest.left;
        parts = ap (λ t. c ∷ t) rest.parts;
        quotes = (unfold is_quote in ground (arith, quote), rest.quotes);
        bare = rest.bare;
      })
      | inr other ↦ rw other (record {
        left = [];
        parts = refl;
        quotes = tt;
        bare = unfold is_quote in ground (arith, other);
      })
    ]

Bare-front : (s t : Bytes) → Bare (s ++ t) → Bare s
Bare-front [] t h = tt
Bare-front (c ∷ s) t h = h

All-reverse : (s : Bytes) → All IsQuote s → All IsQuote (reverse s)
All-reverse [] h = tt
All-reverse (c ∷ s) (q, h) =
    subst (All IsQuote) (sym (reverse-cons c s))
      (All-append IsQuote (reverse s) (c ∷ []) (All-reverse s h) (q, tt))

pub trim_quotes-IsTrimmed : (s : Bytes) → IsTrimmed s (trim_quotes s)
unfolding trim_quotes
trim_quotes-IsTrimmed s =
    let a = trim_left-IsCut s in
    let b = trim_left-IsCut (reverse (trim_left s)) in
    let kept = trim_left (reverse (trim_left s)) in
    let split : trim_left s ≡ reverse kept ++ reverse b.left =
      sym (reverse-reverse (trim_left s)) ∙ (ap reverse b.parts ∙ reverse-append b.left kept) in
    record {
      left = a.left;
      right = reverse b.left;
      parts = a.parts ∙ ap (λ t. a.left ++ t) split;
      left_quotes = a.quotes;
      right_quotes = All-reverse b.left b.quotes;
      bare_left = Bare-front (reverse kept) (reverse b.left) (subst Bare split a.bare);
      bare_right = subst Bare (sym (reverse-reverse kept)) b.bare;
    }
