-- ===== src/Daemon/GuiOpener/Getenv.antt =====
-- What a program that the opener starts finds in its environment.
use lopen.Base.{
  ◌≡◌, ◌≢◌, refl, ap, ◌∙◌, sym, inl, inr, Option, none, some, List, [], ◌∷◌, ◌++◌, ◌==◌,
  if◌then◌else◌, Bytes, bytes_eq, bytes_eq_iff, Map, lookup, insert, lookup-insert, Bool-cases,
  Option-cases, arith, All,
}
use lopen.Daemon.GuiOpener.{
  cut_eq, split_lines, trim_quotes, is_wanted, resolve_line, resolve_lines, inherited, printed,
  gui_env,
}

-- A value under a name, or what comes behind.
abbrev pub under : Bytes → Bytes × Option Bytes → Option Bytes → Option Bytes
under k (j, none) rest = rest
under k (j, some v) rest = if bytes_eq j k then some v else rest

-- The first entry with the name, with its key as the code cuts it.
unfoldable pub read_env : List Bytes → Bytes → Option Bytes
read_env [] k = none
read_env (kv ∷ kvs) k = under k (cut_eq kv) (read_env kvs k)

abbrev pub first_of : Option Bytes → Option Bytes → Option Bytes
first_of none o = o
first_of (some v) o = some v

abbrev pub Plain : Bytes → Type 0
Plain = All (λ c. c ≢ b'=')

-- What a line of the environment block gives for a name that is wanted; the last line counts.
unfoldable pub resolved_value : Bytes → Option Bytes → List Bytes → Option Bytes
resolved_value k now [] = now
resolved_value k now (l ∷ ls) = elim (under k (cut_eq l) none) [
  | none ↦ resolved_value k now ls
  | some v ↦ resolved_value k (some (trim_quotes v)) ls
]

cut_eq-Plain : (k v : Bytes) → Plain k → cut_eq (k ++ b'=' ∷ v) ≡ (k, some v)
unfolding cut_eq
cut_eq-Plain [] v h = refl
cut_eq-Plain (c ∷ k) v (other, h) = ground (arith, cut_eq-Plain k v h)

cut_eq_key : (s : Bytes) → Plain (cut_eq s).0
unfolding cut_eq
cut_eq_key [] = tt
cut_eq_key (c ∷ s) = elim (Bool-cases (c == b'=')) [
  | inl eq ↦ rw (eq, cut_eq) tt
  | inr other ↦ rw (other, cut_eq) (ground (arith, other), cut_eq_key s)
]

abbrev AllPlain : Map Bytes → Type 0
AllPlain = All (λ (kv : Bytes × Bytes). Plain kv.0)

read_env-printed : (m : Map Bytes) (k : Bytes) → AllPlain m → read_env (printed m) k ≡ lookup k m
unfolding read_env printed lookup
read_env-printed [] k h = refl
read_env-printed ((j, v) ∷ m) k (p, h) = ground (arith, cut_eq-Plain j v p, read_env-printed m k h)

under-kept :
    (k : Bytes) (r : Map Bytes) (kv : Bytes × Option Bytes) (rest : Option Bytes)
    → lookup kv.0 r ≡ none
    → (v : Bytes) → lookup k r ≡ some v
    → under k kv rest ≡ rest
under-kept k r (j, none) rest gone v held = refl
under-kept k r (j, some w) rest gone v held = ground (arith, bytes_eq_iff j k)

read_env-held :
    (r : Map Bytes) (base tail : List Bytes) (k v : Bytes)
    → lookup k r ≡ some v
    → read_env (inherited r base ++ tail) k ≡ read_env tail k
unfolding read_env inherited
read_env-held r [] tail k v held = refl
read_env-held r (kv ∷ kvs) tail k v held = elim (Option-cases (lookup (cut_eq kv).0 r)) [
  | inr (w, found) ↦ rw (found, inherited) (read_env-held r kvs tail k v held)
  | inl gone ↦
      rw (gone, inherited)
        (under-kept k r (cut_eq kv) _ gone v held ∙ read_env-held r kvs tail k v held)
]

pub under-first :
    (k : Bytes) (kv : Bytes × Option Bytes) (rest tail : Option Bytes)
    → under k kv (first_of rest tail) ≡ first_of (under k kv rest) tail
under-first k (j, none) rest tail = refl
under-first k (j, some w) rest tail = ground arith

under-gone :
    (k : Bytes) (r : Map Bytes) (kv : Bytes × Option Bytes) (rest : Option Bytes) (w : Bytes)
    → lookup kv.0 r ≡ some w
    → lookup k r ≡ none
    → under k kv rest ≡ rest
under-gone k r (j, none) rest w found gone = refl
under-gone k r (j, some v) rest w found gone = ground (arith, bytes_eq_iff j k)

read_env-gone :
    (r : Map Bytes) (base tail : List Bytes) (k : Bytes)
    → lookup k r ≡ none
    → read_env (inherited r base ++ tail) k ≡ first_of (read_env base k) (read_env tail k)
unfolding read_env inherited
read_env-gone r [] tail k gone = refl
read_env-gone r (kv ∷ kvs) tail k gone = elim (Option-cases (lookup (cut_eq kv).0 r)) [
  | inr (w, found) ↦
      rw (found, inherited)
        (read_env-gone r kvs tail k gone
          ∙ ap (λ o. first_of o (read_env tail k))
              (sym (under-gone k r (cut_eq kv) (read_env kvs k) w found gone)))
  | inl other ↦
      rw (other, inherited)
        (ap (under k (cut_eq kv)) (read_env-gone r kvs tail k gone)
          ∙ under-first k (cut_eq kv) (read_env kvs k) (read_env tail k))
]

insert-AllPlain : (j v : Bytes) (m : Map Bytes) → Plain j → AllPlain m → AllPlain (insert j v m)
unfolding insert
insert-AllPlain j v [] p h = (p, tt)
insert-AllPlain j v ((i, w) ∷ m) p (q, h) = elim (Bool-cases (bytes_eq i j)) [
  | inl same ↦ rw same (q, h)
  | inr other ↦ rw other (q, insert-AllPlain j v m p h)
]

resolve_line-AllPlain :
    (m : Map Bytes) (kv : Bytes × Option Bytes)
    → Plain kv.0
    → AllPlain m
    → AllPlain (resolve_line m kv)
unfolding resolve_line
resolve_line-AllPlain m (j, none) p h = h
resolve_line-AllPlain m (j, some v) p h = elim (Bool-cases (is_wanted j)) [
  | inl yes_j ↦ rw yes_j (insert-AllPlain j (trim_quotes v) m p h)
  | inr no_j ↦ rw no_j h
]

resolve_lines-AllPlain :
    (m : Map Bytes) (ls : List Bytes) → AllPlain m → AllPlain (resolve_lines m ls)
unfolding resolve_lines
resolve_lines-AllPlain m [] h = h
resolve_lines-AllPlain m (l ∷ ls) h =
    resolve_lines-AllPlain (resolve_line m (cut_eq l)) ls
      (resolve_line-AllPlain m (cut_eq l) (cut_eq_key l) h)

-- What a name holds behind a line.
abbrev line_value : Bytes → Option Bytes → Bytes × Option Bytes → Option Bytes
line_value k now kv = elim (under k kv none) [ none ↦ now | some v ↦ some (trim_quotes v) ]

resolve_line-lookup :
    (m : Map Bytes) (kv : Bytes × Option Bytes) (k : Bytes)
    → lookup k (resolve_line m kv)
      ≡ (if is_wanted k then line_value k (lookup k m) kv else lookup k m)
unfolding resolve_line
resolve_line-lookup m (j, none) k = ground arith
resolve_line-lookup m (j, some v) k = elim (Bool-cases (bytes_eq j k)) [
  | inl same ↦ ground (arith, (bytes_eq_iff j k).0 same, lookup-insert j k (trim_quotes v) m, same)
  | inr other ↦ ground (arith, lookup-insert j k (trim_quotes v) m, other)
]

resolved_value-line :
    (k : Bytes) (now : Option Bytes) (l : Bytes) (ls : List Bytes)
    → resolved_value k (line_value k now (cut_eq l)) ls ≡ resolved_value k now (l ∷ ls)
unfolding resolved_value
resolved_value-line k now l ls = ground arith

resolve_lines-lookup :
    (m : Map Bytes) (ls : List Bytes) (k : Bytes)
    → lookup k (resolve_lines m ls)
      ≡ (if is_wanted k then resolved_value k (lookup k m) ls else lookup k m)
unfolding resolve_lines resolved_value
resolve_lines-lookup m [] k = ground arith
resolve_lines-lookup m (l ∷ ls) k = ground (
  arith,
  resolve_lines-lookup (resolve_line m (cut_eq l)) ls k,
  resolve_line-lookup m (cut_eq l) k,
  resolved_value-line k (lookup k m) l ls,
)

-- What the opener puts under a name, in the terms of the code.
pub read_env-gui_env :
    (base : List Bytes) (out k : Bytes)
    → read_env (gui_env base (some out)) k ≡ (
        if is_wanted k
        then first_of (resolved_value k none (split_lines out)) (read_env base k)
        else read_env base k)
unfolding gui_env lookup
read_env-gui_env base out k =
    let r = resolve_lines [] (split_lines out) in
    let says = resolve_lines-lookup [] (split_lines out) k in
    let shown = read_env-printed r k (resolve_lines-AllPlain [] (split_lines out) tt) in
    elim (Option-cases (lookup k r)) [
      | inl gone ↦ ground (arith, gone, says, shown, read_env-gone r base (printed r) k gone)
      | inr (v, held) ↦ ground (arith, held, says, shown, read_env-held r base (printed r) k v held)
    ]
