-- ===== src/Tar/SafeJoin/Confined.antt =====
-- SafeJoin against a description that follows the elements of the name.
use mathlib.Core.List.{reverse, reverse-append, reverse-reverse}
use lopen.Base.{
  Bool, true, false, List, [], ◌∷◌, ◌++◌, if◌then◌else◌, Bytes, bytes_eq, contains, has_prefix, ◌≡◌,
  ◌≢◌, refl, ap, sym, ◌∙◌, All, arith, append_assoc, append-nil, Option, none, some, Option-cases,
  Bool-cases, inl, inr,
}
use lopen.Fault.{empty_name, nul_in_name, backslash_in_name, absolute_path, path_escapes_root}
use lopen.Io.{Result, ok, err}
use lopen.Paths.{slash, dotdot, is_abs, split, join_slash, step, walk, stack, render, clean, join}
use lopen.Paths.Elements.{
  IsPlain, Lacks, split-append, split-Lacks, split-join_slash, walk-append, walk_plain, All-reverse,
}
use lopen.Paths.Descend.{descend, walk-descend, walk-climbs, climbs, climbs_plain, climbs-dotdot}
use lopen.Tar.SafeJoin.{safe_join}

-- The stack of root with the elements of qs on top, printed.
abbrev pub place : Bytes → List Bytes → Bytes
place root qs = render (is_abs root) (reverse (qs ++ stack root))

is_abs-append : (root s : Bytes) → root ≢ [] → is_abs (root ++ s) ≡ is_abs root
unfolding is_abs
is_abs-append [] s h = absurd (h refl)
is_abs-append (c ∷ root) s h = refl

stack-join :
    (root s : Bytes)
    → root ≢ []
    → stack (root ++ slash s) ≡ walk (is_abs root) (stack root) (split s)
unfolding stack
stack-join root s h =
    rw (is_abs-append root (slash s) h, split-append root s)
      (walk-append (is_abs root) [] (split root) (split s))

pub join-clean :
    (root s : Bytes)
    → root ≢ []
    → join root s ≡ render (is_abs root) (reverse (walk (is_abs root) (stack root) (split s)))
unfolding join clean
join-clean [] s h = absurd (h refl)
join-clean (c ∷ root) s h = rw (is_abs-append (c ∷ root) (slash s) h, stack-join (c ∷ root) s h)

-- The print of plain elements, split and walked, pushes them.
walk-render :
    (r : Bool) (st els : List Bytes)
    → All IsPlain els
    → walk r st (split (render false els)) ≡ reverse els ++ st
unfolding render
walk-render r st [] h = unfold walk split step bytes_eq in refl
walk-render r st (w ∷ ws) h =
    rw (split-join_slash w ws (no_slashes (w ∷ ws) h)) (walk_plain r st (w ∷ ws) h)
  where
    no_slashes : (els : List Bytes) → All IsPlain els → All (Lacks b'/') els
    no_slashes [] k = tt
    no_slashes (v ∷ vs) k = (k.0.no_slash, no_slashes vs k.1)

clean_relative :
    (name : Bytes)
    → is_abs name ≡ false
    → clean name ≡ render false (reverse (walk false [] (split name)))
unfolding clean stack
clean_relative name h = rw h

not_climbing : (els : List Bytes) → All IsPlain els → climbs (render false els) ≡ false
unfolding render bytes_eq has_prefix
not_climbing [] k = refl
not_climbing (w ∷ ws) k = climbs_plain w ws k.0

-- A name that descends to qs is cleaned to them, passes the test, and is joined on top of root.
join-descend :
    (root name : Bytes) (qs : List Bytes)
    → root ≢ []
    → is_abs name ≡ false
    → descend [] (split name) ≡ some qs
    → (climbs (clean name) ≡ false) × (join root (clean name) ≡ place root qs)
join-descend root name qs nonempty rel e =
    let (walked, plain) = walk-descend false [] (split name) qs (split-Lacks name) e in
    let cleaned : clean name ≡ render false (reverse qs) =
      clean_relative name rel ∙ ap (λ t. render false (reverse t)) (walked ∙ append-nil qs) in
    (
      ap climbs cleaned ∙ not_climbing (reverse qs) (All-reverse qs plain),
      join-clean root (clean name) nonempty
          ∙ (ap (λ t. render (is_abs root) (reverse (walk (is_abs root) (stack root) (split t))))
                cleaned
              ∙ ap (λ t. render (is_abs root) (reverse t))
                  (walk-render (is_abs root) (stack root) (reverse qs) (All-reverse qs plain)
                    ∙ ap (λ t. t ++ stack root) (reverse-reverse qs))),
    )

-- A name that climbs is refused by the test.
climbs-clean :
    (name : Bytes)
    → is_abs name ≡ false
    → descend [] (split name) ≡ none
    → climbs (clean name) ≡ true
climbs-clean name rel e =
    let (t, walked) = walk-climbs (split name) (split-Lacks name) e in
    ap climbs (
      clean_relative name rel
      ∙ ap (λ s. render false (reverse s)) walked
      ∙ ap (render false) (reverse-append t (dotdot ∷ [])))
    ∙ (unfold render in climbs-dotdot (reverse t))

-- Where the name goes, without Clean: refused if it climbs, else on top of root.
abbrev pub placed : Bytes → Option (List Bytes) → Result Bytes
placed root none = err path_escapes_root
placed root (some qs) = ok (place root qs)

last_test :
    (root name : Bytes)
    → root ≢ []
    → is_abs name ≡ false
    → (if climbs (clean name) then err path_escapes_root else ok (join root (clean name)))
      ≡ placed root (descend [] (split name))
last_test root name h rel = elim (Option-cases (descend [] (split name))) [
  | inl e ↦ rw (e, climbs-clean name rel e)
  | inr (qs, e) ↦ let (passes, joined) = join-descend root name qs h rel e in rw (e, passes, joined)
]

-- SafeJoin for a root that is not empty: the name is refused if it is empty, holds a NUL or a
-- backslash, is absolute, or at some point has more `..` than elements before it; any other name
-- gives the elements that are left of it, on top of those of root.
pub safe_join_exact :
    (root name : Bytes)
    → root ≢ []
    → safe_join root name ≡ (
        if bytes_eq name []
        then err empty_name
        else if contains 0 name
        then err nul_in_name
        else if contains b'\\' name
        then err backslash_in_name
        else if is_abs name
        then err absolute_path
        else placed root (descend [] (split name)))
unfolding safe_join
safe_join_exact root name h = elim (Bool-cases (is_abs name)) [
  | inl e ↦ rw e
  | inr e ↦ rw (e, last_test root name h e)
]

-- Elements below a path.
abbrev pub below : Bytes → List Bytes → Bytes
below base [] = base
below base (w ∷ ws) = base ++ slash (join_slash (w ∷ ws))

join_slash-append :
    (w : Bytes) (ws : List Bytes) (v : Bytes) (vs : List Bytes)
    → join_slash ((w ∷ ws) ++ v ∷ vs) ≡ join_slash (w ∷ ws) ++ slash (join_slash (v ∷ vs))
unfolding join_slash
join_slash-append w [] v vs = refl
join_slash-append w (u ∷ ws) v vs =
    ap (λ t. w ++ slash t) (join_slash-append u ws v vs)
    ∙ sym (append_assoc w (slash (join_slash (u ∷ ws))) (slash (join_slash (v ∷ vs))))

render-append :
    (r : Bool) (els more : List Bytes)
    → els ≢ []
    → render r (els ++ more) ≡ below (render r els) more
unfolding render
render-append r [] more h = absurd (h refl)
render-append r (w ∷ ws) [] h = rw append-nil
render-append true (w ∷ ws) (v ∷ vs) h = ap slash (join_slash-append w ws v vs)
render-append false (w ∷ ws) (v ∷ vs) h = join_slash-append w ws v vs

reverse-ne-nil : (els : List Bytes) → els ≢ [] → reverse els ≢ []
reverse-ne-nil els h e = h (sym (reverse-reverse els) ∙ ap reverse e)

pub place-below :
    (root : Bytes) (qs : List Bytes)
    → stack root ≢ []
    → place root qs ≡ below (clean root) (reverse qs)
unfolding clean
place-below root qs h = rw (reverse-append qs (stack root)) (
    render-append (is_abs root) (reverse (stack root)) (reverse qs) (reverse-ne-nil (stack root) h))

-- An accepted name descends, and its place is the result.
pub accepted :
    (root name p : Bytes)
    → root ≢ []
    → safe_join root name ≡ ok p
    → (qs : List Bytes) × (descend [] (split name) ≡ some qs) × (p ≡ place root qs)
accepted root name p h e = elim (Option-cases (descend [] (split name))) [
  | inl d ↦ absurd (ground (arith, safe_join_exact root name h, d))
  | inr (qs, d) ↦ (qs, d, ground (arith, safe_join_exact root name h, d))
]

pub root_given : (root : Bytes) → stack root ≢ [] → root ≢ []
root_given root h e = h (rw e (unfold stack walk split step is_abs bytes_eq in refl))

-- Whatever SafeJoin returns lies at or below root: it is the cleaned root, alone or with elements
-- behind it, none of them empty, `.` or `..`, and none with a slash in it. The root is not empty
-- and not cleaned to `.` or `/`.
pub safe_join_confined :
    (root name p : Bytes)
    → stack root ≢ []
    → safe_join root name ≡ ok p
    → (els : List Bytes) × All IsPlain els × (p ≡ below (clean root) els)
safe_join_confined root name p h e =
    let (qs, d, at) = accepted root name p (root_given root h) e in
    let plain = (walk-descend false [] (split name) qs (split-Lacks name) d).1 in
    (reverse qs, All-reverse qs plain, at ∙ place-below root qs h)
