-- ===== src/Paths/Rooted.antt =====
-- Clean and Dir on absolute paths: a printed stack is clean, and Dir drops the last element.
use mathlib.Core.List.{reverse, reverse-reverse}
use lopen.Base.{
  true, false, ◌||◌, List, [], ◌∷◌, ◌++◌, Bytes, bytes_eq, bytes_eq_iff, contains, ◌≡◌, ◌≢◌, refl,
  ap, sym, ◌∙◌, All, arith, append_assoc, append-nil, Bool-cases, inl, inr,
}
use lopen.Paths.{
  slash, dot, dotdot, is_abs, split, join_slash, step, up, walk, stack, render, clean, dir_part,
  dir,
}
use lopen.Paths.Elements.{
  IsPlain, Lacks, split-append, split-Lacks, split-join_slash, walk-append, walk_plain,
}

no_slashes : (els : List Bytes) → All IsPlain els → All (Lacks b'/') els
no_slashes [] k = tt
no_slashes (v ∷ vs) k = (k.0.no_slash, no_slashes vs k.1)

stack_rooted : (els : List Bytes) → All IsPlain els → stack (render true els) ≡ reverse els
unfolding stack render is_abs split
stack_rooted [] h = unfold walk step bytes_eq join_slash in refl
stack_rooted (w ∷ ws) h =
    rw (split-join_slash w ws (no_slashes (w ∷ ws) h))
      (unfold walk step bytes_eq in (walk_plain true [] (w ∷ ws) h ∙ append-nil (reverse (w ∷ ws))))

pub clean_rooted : (els : List Bytes) → All IsPlain els → clean (render true els) ≡ render true els
unfolding clean
clean_rooted els h = rw (stack_rooted els h, reverse-reverse els) (unfold render is_abs in refl)

-- A slash at the end is cleaned away.
pub clean-slash : (s : Bytes) → s ≢ [] → clean (s ++ slash []) ≡ clean s
unfolding clean stack render is_abs
clean-slash [] h = absurd (h refl)
clean-slash (c ∷ s) h =
    rw (split-append (c ∷ s) [], walk-append (is_abs (c ∷ s)) [] (split (c ∷ s)) (split []))
      (unfold walk step split bytes_eq is_abs in refl)

contains-append : (b : Bytes) (w : Bytes) → contains b'/' (b ++ slash w) ≡ true
unfolding contains
contains-append [] w = refl
contains-append (c ∷ b) w = ground (arith, contains-append b w)

contains-Lacks : (w : Bytes) → Lacks b'/' w → contains b'/' w ≡ false
unfolding contains
contains-Lacks [] h = refl
contains-Lacks (c ∷ w) h = ground (arith, contains-Lacks w h.1)

dir_part-slash : (s w : Bytes) → Lacks b'/' w → dir_part (s ++ slash w) ≡ s ++ slash []
unfolding dir_part
dir_part-slash [] w h = rw (contains-Lacks w h)
dir_part-slash (c ∷ s) w h = rw (contains-append s w, dir_part-slash s w h)

join_slash-snoc :
    (w : Bytes) (ws : List Bytes) (v : Bytes)
    → join_slash ((w ∷ ws) ++ v ∷ []) ≡ join_slash (w ∷ ws) ++ slash v
unfolding join_slash
join_slash-snoc w [] v = refl
join_slash-snoc w (u ∷ ws) v =
    ap (λ t. w ++ slash t) (join_slash-snoc u ws v)
    ∙ sym (append_assoc w (slash (join_slash (u ∷ ws))) (slash v))

dir_one : (w : Bytes) → IsPlain w → dir (render true (w ∷ [])) ≡ render true []
unfolding dir render join_slash
dir_one w p = ap clean (dir_part-slash [] w p.no_slash) ∙ clean_rooted [] tt

dir_more :
    (v : Bytes) (els : List Bytes) (w : Bytes)
    → All IsPlain (v ∷ els)
    → IsPlain w
    → dir (render true ((v ∷ els) ++ w ∷ [])) ≡ render true (v ∷ els)
unfolding dir render
dir_more v els w h p =
    ap (λ t. clean (dir_part (slash t))) (join_slash-snoc v els w)
    ∙ (ap clean (dir_part-slash (slash (join_slash (v ∷ els))) w p.no_slash)
        ∙ (clean-slash (slash (join_slash (v ∷ els))) (λ e. cc) ∙ clean_rooted (v ∷ els) h))

-- Dir of a rooted path drops its last element.
pub dir_rooted :
    (els : List Bytes) (w : Bytes)
    → All IsPlain els
    → IsPlain w
    → dir (render true (els ++ w ∷ [])) ≡ render true els
dir_rooted [] w h p = dir_one w p
dir_rooted (v ∷ els) w h p = dir_more v els w h p

-- The elements of an absolute path are plain.
step_rooted-IsPlain :
    (st : List Bytes) (w : Bytes) → Lacks b'/' w → All IsPlain st → All IsPlain (step true st w)
unfolding step up
step_rooted-IsPlain [] w h k = elim (Bool-cases (bytes_eq w [] || bytes_eq w dot)) [
  | inl e ↦ rw e k
  | inr e ↦ elim (Bool-cases (bytes_eq w dotdot)) [
    | inl d ↦ rw (e, d) k
    | inr d ↦
        rw (e, d)
          (
            record {
              not_empty = ground (arith, bytes_eq_iff w []);
              not_dot = ground (arith, bytes_eq_iff w dot);
              not_dotdot = ground (arith, bytes_eq_iff w dotdot);
              no_slash = h;
            },
            k,
          )
  ]
]
step_rooted-IsPlain (v ∷ st) w h k = elim (Bool-cases (bytes_eq w [] || bytes_eq w dot)) [
  | inl e ↦ rw e k
  | inr e ↦ elim (Bool-cases (bytes_eq w dotdot)) [
    | inl d ↦ elim (Bool-cases (bytes_eq v dotdot)) [
      | inl f ↦ absurd (k.0.not_dotdot ((bytes_eq_iff v dotdot).0 f))
      | inr f ↦ rw (e, d, f) (k.1)
    ]
    | inr d ↦
        rw (e, d)
          (
            record {
              not_empty = ground (arith, bytes_eq_iff w []);
              not_dot = ground (arith, bytes_eq_iff w dot);
              not_dotdot = ground (arith, bytes_eq_iff w dotdot);
              no_slash = h;
            },
            k,
          )
  ]
]

walk_rooted-IsPlain :
    (st ws : List Bytes) → All (Lacks b'/') ws → All IsPlain st → All IsPlain (walk true st ws)
unfolding walk
walk_rooted-IsPlain st [] h k = k
walk_rooted-IsPlain st (w ∷ ws) h k =
    walk_rooted-IsPlain (step true st w) ws h.1 (step_rooted-IsPlain st w h.0 k)

pub stack-IsPlain : (s : Bytes) → is_abs s ≡ true → All IsPlain (stack s)
unfolding stack
stack-IsPlain s h = rw h (walk_rooted-IsPlain [] (split s) (split-Lacks s) tt)
