-- ===== src/Paths/Elements.antt =====
-- Splitting and joining, and the elements that a cleaned path is made of.
use mathlib.Core.List.{reverse, reverse-cons}
use lopen.Base.{
  ℕ, Bool, List, [], ◌∷◌, ◌++◌, ◌==◌, Bytes, bytes_eq_iff, ◌≡◌, ◌≢◌, refl, ap, sym, ◌∙◌, All,
  All-append, arith, append_assoc, if_intro,
}
use lopen.Paths.{slash, dot, dotdot, put_first, split, join_slash, step, walk}

abbrev pub Lacks : ℕ → Bytes → Type 0
Lacks b = All (λ c. c ≢ b)

put_first-append :
    (c : ℕ) (xs ys : List Bytes) → xs ≢ [] → put_first c xs ++ ys ≡ put_first c (xs ++ ys)
put_first-append c [] ys h = absurd (h refl)
put_first-append c (x ∷ xs) ys h = refl

put_first-ne-nil : (c : ℕ) (ws : List Bytes) → put_first c ws ≢ []
put_first-ne-nil c [] h = cc
put_first-ne-nil c (w ∷ ws) h = cc

split-ne-nil : (s : Bytes) → split s ≢ []
unfolding split
split-ne-nil [] h = cc
split-ne-nil (c ∷ s) h =
    if_intro (λ t. t ≡ [] → ⊥) (c == b'/') (λ _ e. cc) (λ _. put_first-ne-nil c (split s)) h

pub split-append : (a b : Bytes) → split (a ++ slash b) ≡ split a ++ split b
unfolding split
split-append [] b = refl
split-append (c ∷ a) b =
    ground (arith, split-append a b, put_first-append c (split a) (split b) (split-ne-nil a))

All-put_first :
    (c : ℕ) (ws : List Bytes) → c ≢ b'/' → All (Lacks b'/') ws → All (Lacks b'/') (put_first c ws)
All-put_first c [] h k = ((h, tt), tt)
All-put_first c (w ∷ ws) h k = ((h, k.0), k.1)

pub split-Lacks : (s : Bytes) → All (Lacks b'/') (split s)
unfolding split
split-Lacks [] = (tt, tt)
split-Lacks (c ∷ s) =
    if_intro (All (Lacks b'/')) (c == b'/') (λ _. (tt, split-Lacks s))
      (λ e. All-put_first c (split s) (ground arith) (split-Lacks s))

pub split_one : (w : Bytes) → Lacks b'/' w → split w ≡ w ∷ []
unfolding split
split_one [] h = refl
split_one (c ∷ w) h = ground (arith, split_one w h.1)

pub split-join_slash :
    (w : Bytes) (ws : List Bytes) → All (Lacks b'/') (w ∷ ws) → split (join_slash (w ∷ ws)) ≡ w ∷ ws
unfolding join_slash
split-join_slash w [] h = split_one w h.0
split-join_slash w (v ∷ ws) h =
    split-append w (join_slash (v ∷ ws)) ∙ rw (split_one w h.0, split-join_slash v ws h.1)

pub walk-append :
    (r : Bool) (st xs ys : List Bytes) → walk r st (xs ++ ys) ≡ walk r (walk r st xs) ys
unfolding walk
walk-append r st [] ys = refl
walk-append r st (x ∷ xs) ys = walk-append r (step r st x) xs ys

-- An element that a name can have.
pub record IsPlain (w : Bytes) : Type 0 where
  pub not_empty : w ≢ []
  pub not_dot : w ≢ dot
  pub not_dotdot : w ≢ dotdot
  pub no_slash : Lacks b'/' w

pub step_plain : (r : Bool) (st : List Bytes) (w : Bytes) → IsPlain w → step r st w ≡ w ∷ st
unfolding step
step_plain r st w p = ground (
  arith,
  bytes_eq_iff w [],
  bytes_eq_iff w dot,
  bytes_eq_iff w dotdot,
  p.not_empty,
  p.not_dot,
  p.not_dotdot,
)

-- Plain elements are pushed one by one.
pub walk_plain : (r : Bool) (st ws : List Bytes) → All IsPlain ws → walk r st ws ≡ reverse ws ++ st
unfolding walk
walk_plain r st [] h = refl
walk_plain r st (w ∷ ws) h =
    ap (λ t. walk r t ws) (step_plain r st w h.0)
    ∙ (walk_plain r (w ∷ st) ws h.1
        ∙ (sym (append_assoc (reverse ws) (w ∷ []) st)
            ∙ ap (λ t. t ++ st) (sym (reverse-cons w ws))))

pub All-reverse : (ws : List Bytes) → All IsPlain ws → All IsPlain (reverse ws)
All-reverse [] h = tt
All-reverse (w ∷ ws) h =
    rw (reverse-cons w ws) (All-append IsPlain (reverse ws) (w ∷ []) (All-reverse ws h.1) (h.0, tt))
