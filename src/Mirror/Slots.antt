-- ===== src/Mirror/Slots.antt =====
-- Where Rel and Abs put a request: below the directory of its label, and outside of the staging
-- directory.
use mathlib.Core.List.{reverse, reverse-reverse}
use lopen.Base.{
  false, List, [], ◌∷◌, Bytes, codes, bytes_eq_iff, All, ◌≡◌, ◌≢◌, refl, ap, ◌∙◌, arith,
}
use lopen.Io.{Result, ok, err}
use lopen.Paths.{is_abs, join_slash, walk, stack, render, clean, join}
use lopen.Paths.Elements.{IsPlain, Lacks, split_one, split-join_slash, step_plain, walk_plain}
use lopen.Protocol.Validate.Exact.{IsLabel, IsLabelChar}
use lopen.Tar.SafeJoin.{safe_join}
use lopen.Tar.SafeJoin.Confined.{below, join-clean, place-below, root_given, safe_join_confined}
use lopen.Tar.Unpack.Inside.{IsDest}
use lopen.Mirror.{Mirror, trim_slash, below_label, rel, abs}

chars-Lacks : (s : Bytes) → All IsLabelChar s → Lacks b'/' s
chars-Lacks [] h = tt
chars-Lacks (c ∷ s) (here, rest) = (ground arith, chars-Lacks s rest)

-- A label is a name that a directory can have.
pub label-IsPlain : (l : Bytes) → IsLabel l → IsPlain l
label-IsPlain [] h = absurd h
label-IsPlain (c ∷ s) (first, short, more) = record {
  not_empty = λ e. cc;
  not_dot = λ e. ground (arith, e);
  not_dotdot = λ e. ground (arith, e);
  no_slash = (ground arith, chars-Lacks s more);
}

plain-relative : (w : Bytes) → IsPlain w → is_abs w ≡ false
unfolding is_abs
plain-relative [] p = refl
plain-relative (c ∷ w) p = ground (arith, p.no_slash.0)

stack_plain : (w : Bytes) → IsPlain w → stack w ≡ w ∷ []
unfolding stack walk
stack_plain w p = rw (split_one w p.no_slash) (step_plain (is_abs w) [] w p)

clean_plain : (w : Bytes) → IsPlain w → clean w ≡ w
unfolding clean render
clean_plain w p = rw (stack_plain w p, plain-relative w p) (unfold join_slash in refl)

below_label_ok :
    (label r : Bytes) (x : Result Bytes) → below_label label x ≡ ok r → (x ≡ ok r) × (r ≢ label)
unfolding below_label
below_label_ok label r (err e) h = cc
below_label_ok label r (ok p) h =
    (ground (arith, h), λ same. ground (arith, h, same, bytes_eq_iff p label))

-- Below a label by at least one name.
abbrev pub IsSlot : Bytes → Bytes → Type 0
IsSlot label r = (w : Bytes) × (ws : List Bytes) × All IsPlain (w ∷ ws) × (r ≡ below label (w ∷ ws))

IsSlot-of :
    (label r : Bytes) (els : List Bytes)
    → All IsPlain els
    → r ≡ below label els
    → r ≢ label
    → IsSlot label r
IsSlot-of label r [] plain at other = absurd (other at)
IsSlot-of label r (w ∷ ws) plain at other = (w, ws, plain, at)

-- The key that Rel gives a path, whatever the path, lies strictly below the label, by names that
-- are not empty, `.` or `..` and hold no slash.
pub rel-IsSlot : (label path r : Bytes) → IsLabel label → rel label path ≡ ok r → IsSlot label r
unfolding rel
rel-IsSlot label path r l e =
    let p = label-IsPlain label l in
    let (joined, other) = below_label_ok label r (safe_join label (trim_slash path)) e in
    let some_stack : stack label ≢ [] = λ nil. cc (stack_plain label p) in
    let (els, plain, at) = safe_join_confined label (trim_slash path) r some_stack joined in
    IsSlot-of label r els plain (at ∙ ap (λ t. below t els) (clean_plain label p)) other

join-below :
    (root w v : Bytes) (ws : List Bytes)
    → IsDest root
    → All IsPlain (w ∷ v ∷ ws)
    → join root (below w (v ∷ ws)) ≡ below root (w ∷ v ∷ ws)
unfolding join_slash
join-below root w v ws d plain =
    let els = w ∷ v ∷ ws in
    join-clean root (join_slash els) (root_given root d.not_root)
    ∙ (ap (λ t. render (is_abs root) (reverse (walk (is_abs root) (stack root) t)))
          (split-join_slash w (v ∷ ws) (no_slashes els plain))
        ∙ (ap (λ t. render (is_abs root) (reverse t))
              (walk_plain (is_abs root) (stack root) els plain)
            ∙ (place-below root (reverse els) d.not_root
                ∙ (ap (λ t. below t (reverse (reverse els))) d.cleaned
                    ∙ ap (below root) (reverse-reverse els)))))
  where
    no_slashes : (els : List Bytes) → All IsPlain els → All (Lacks b'/') els
    no_slashes [] k = tt
    no_slashes (u ∷ us) k = (k.0.no_slash, no_slashes us k.1)

-- A mirror root is a directory as filepath.Join makes one. Every request that Rel accepts gets a
-- place in the mirror that lies below the directory of its label, whatever its path; that directory
-- is not the staging directory.
pub abs-rel :
    (m : Mirror) (label path r : Bytes)
    → IsDest m.root
    → IsLabel label
    → rel label path ≡ ok r
    → (w : Bytes) × (ws : List Bytes) × All IsPlain (label ∷ w ∷ ws)
      × (abs m r ≡ below m.root (label ∷ w ∷ ws))
      × (label ≢ codes ".staging")
unfolding abs
abs-rel m label path r d l e =
    let (w, ws, plain, at) = rel-IsSlot label path r l e in
    (
      w,
      ws,
      (label-IsPlain label l, plain),
      ap (join m.root) at ∙ join-below m.root label w ws d (label-IsPlain label l, plain),
      not_staging label l,
    )
  where
    not_staging : (k : Bytes) → IsLabel k → k ≢ codes ".staging"
    not_staging [] h = absurd h
    not_staging (c ∷ s) h = λ e. ground (arith, e, h.0)
