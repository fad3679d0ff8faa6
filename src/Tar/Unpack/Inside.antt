-- ===== src/Tar/Unpack/Inside.antt =====
-- Where an archive can write: at its destination or below, whatever the names in it.
use mathlib.Core.List.{reverse, reverse-cons}
use lopen.Base.{
  ℕ, true, false, List, [], ◌∷◌, ◌++◌, Bytes, All, All-append, ◌≡◌, ◌≢◌, ◌⊎◌, inl, inr, refl, ap,
  sym, ◌∙◌, subst,
}
use lopen.Io.{ok}
use lopen.Os.{Os, Log, Call, mkdir_all, create, write_file, close_file, Adds}
use lopen.Paths.{is_abs, split, stack, render, clean, dir}
use lopen.Paths.Elements.{IsPlain, split-Lacks, All-reverse}
use lopen.Paths.Descend.{walk-descend}
use lopen.Paths.Rooted.{dir_rooted, stack-IsPlain}
use lopen.Tar.SafeJoin.{safe_join}
use lopen.Tar.SafeJoin.Confined.{place, below, accepted, place-below, root_given}
use lopen.Tar.Unpack.Calls.{Allows, unpack-Adds}
use lopen.Tar.Unpack.{Archive, unpack}

-- At dest, or below it by elements that are names: not empty, `.` or `..`, and with no slash.
abbrev pub IsAt : Bytes → Bytes → Type 0
IsAt dest p = (els : List Bytes) × All IsPlain els × (p ≡ below dest els)

-- Files are made, written and closed at dest or below; directories also at its parent.
abbrev pub IsInside : Bytes → Call → Type 0
IsInside dest (mkdir_all p) = IsAt dest p ⊎ (p ≡ dir dest)
IsInside dest (create p x) = IsAt dest p
IsInside dest (write_file p s) = IsAt dest p
IsInside dest (close_file p) = IsAt dest p
IsInside dest _ = ⊥

-- A destination as filepath.Join makes one: absolute, clean, and not the root directory.
pub record IsDest (dest : Bytes) : Type 0 where
  pub absolute : is_abs dest ≡ true
  pub cleaned : clean dest ≡ dest
  pub not_root : stack dest ≢ []

module _ (dest : Bytes) (d : IsDest dest) where
  place-IsAt : (qs : List Bytes) → All IsPlain qs → IsAt dest (place dest qs)
  place-IsAt qs plain = (
    reverse qs,
    All-reverse qs plain,
    place-below dest qs d.not_root ∙ ap (λ t. below t (reverse qs)) d.cleaned,
  )

  rooted : (qs : List Bytes) → place dest qs ≡ render true (reverse (qs ++ stack dest))
  rooted qs = ap (λ r. render r (reverse (qs ++ stack dest))) d.absolute

  place-nil : place dest [] ≡ dest
  unfolding clean
  place-nil = d.cleaned

  dir-place :
      (qs : List Bytes)
      → All IsPlain qs
      → IsAt dest (dir (place dest qs)) ⊎ (dir (place dest qs) ≡ dir dest)
  dir-place [] plain = inr (ap dir place-nil)
  dir-place (q ∷ qs) plain =
      let all_plain : All IsPlain (qs ++ stack dest) =
        All-append IsPlain qs (stack dest) plain.1 (stack-IsPlain dest d.absolute) in
      let up : dir (place dest (q ∷ qs)) ≡ place dest qs =
        ap dir (rooted (q ∷ qs))
        ∙ (ap (λ t. dir (render true t)) (reverse-cons q (qs ++ stack dest))
            ∙ (dir_rooted (reverse (qs ++ stack dest)) q (All-reverse (qs ++ stack dest) all_plain)
                  plain.0
                ∙ sym (rooted qs))) in
      inl (subst (IsAt dest) (sym up) (place-IsAt qs plain.1))

  place-Allows : (qs : List Bytes) → All IsPlain qs → Allows (IsInside dest) (place dest qs)
  place-Allows qs plain = record {
    makes = inl (place-IsAt qs plain);
    parent = dir-place qs plain;
    creates = λ x. place-IsAt qs plain;
    writes = λ s. place-IsAt qs plain;
    closes = place-IsAt qs plain;
  }

  pub joined-Allows :
      (name target : Bytes) → safe_join dest name ≡ ok target → Allows (IsInside dest) target
  joined-Allows name target e =
      let (qs, down, at) = accepted dest name target (root_given dest d.not_root) e in
      let plain = (walk-descend false [] (split name) qs (split-Lacks name) down).1 in
      subst (Allows (IsInside dest)) (sym at) (place-Allows qs plain)

-- Unpacking any archive, whatever the names and kinds of its members and whatever the operating
-- system answers, makes, writes and closes files only at the destination or below it, and makes
-- directories only there or at its parent. The destination is absolute, clean and not the root.
pub unpack-IsInside :
    (os : Os) (log : Log) (archive : Archive) (dest : Bytes) (max_bytes max_entries : ℕ)
    → IsDest dest
    → Adds (IsInside dest) log (unpack os log archive dest max_bytes max_entries).log
unpack-IsInside os log archive dest max_bytes max_entries d =
    unpack-Adds (IsInside dest) os log archive dest max_bytes max_entries (inl ([], tt, refl))
      (joined-Allows dest d)
