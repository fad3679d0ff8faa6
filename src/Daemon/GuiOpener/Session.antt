-- ===== src/Daemon/GuiOpener/Session.antt =====
-- What a program that the opener starts finds in its environment, without the functions of the code.
use mathlib.Core.List.{Memᴰ}
use lopen.Base.{
  true, Option, none, some, List, [], ◌∷◌, ◌++◌, ◌==◌, any, if◌then◌else◌, Bytes, bytes_eq,
  bytes_eq_iff, All, ◌≡◌, ◌↔◌, inl, inr, refl, ap, sym, ◌∙◌, subst, Bool-cases, Option-cases, arith,
}
use lopen.Paths.Elements.{Lacks}
use lopen.Daemon.GuiOpener.{cut_eq, split_lines, trim_quotes, wanted_names, is_wanted, gui_env}
use lopen.Daemon.GuiOpener.Trim.{IsTrimmed, trim_quotes-IsTrimmed}
use lopen.Daemon.GuiOpener.Getenv.{
  under, read_env, first_of, Plain, resolved_value, under-first, read_env-gui_env,
}

-- What stands behind the name and `=` in an entry.
pub value_of : Bytes → Bytes → Option Bytes
value_of [] [] = none
value_of [] (c ∷ s) = if c == b'=' then some s else none
value_of (j ∷ k) [] = none
value_of (j ∷ k) (c ∷ s) = let rest = value_of k s in if c == j then rest else none

-- getenv of POSIX: the first entry with the name.
pub getenv : List Bytes → Bytes → Option Bytes
getenv [] k = none
getenv (kv ∷ kvs) k = first_of (value_of k kv) (getenv kvs k)

-- What the last line for a name says.
pub last_said : Bytes → List Bytes → Option Bytes
last_said k [] = none
last_said k (l ∷ ls) = first_of (last_said k ls) (value_of k l)

-- Lines, with a newline between each and the next.
pub join_lines : Bytes → List Bytes → Bytes
join_lines l [] = l
join_lines l (m ∷ ls) = l ++ b'\n' ∷ join_lines m ls

-- A value that was said counts without the quotes around it, and else what was there.
abbrev pub Gets : Option Bytes → Option Bytes → Option Bytes → Type 0
Gets none inherited got = got ≡ inherited
Gets (some v) inherited got = (w : Bytes) × (got ≡ some w) × IsTrimmed v w

value_of-cut : (k s : Bytes) → Plain k → value_of k s ≡ under k (cut_eq s) none
unfolding value_of cut_eq bytes_eq
value_of-cut [] [] h = refl
value_of-cut [] (c ∷ s) h = ground (arith)
value_of-cut (j ∷ k) [] h = refl
value_of-cut (j ∷ k) (c ∷ s) (other, h) = ground (arith, other, value_of-cut k s h)

getenv-read_env : (env : List Bytes) (k : Bytes) → Plain k → getenv env k ≡ read_env env k
unfolding getenv read_env
getenv-read_env [] k h = refl
getenv-read_env (kv ∷ kvs) k h =
    ap (λ o. first_of o (getenv kvs k)) (value_of-cut k kv h)
    ∙ (sym (under-first k (cut_eq kv) none (getenv kvs k))
        ∙ ap (under k (cut_eq kv)) (getenv-read_env kvs k h))

abbrev trimmed : Option Bytes → Option Bytes
trimmed none = none
trimmed (some v) = some (trim_quotes v)

resolved_value-last_said :
    (k : Bytes) (now : Option Bytes) (ls : List Bytes)
    → Plain k
    → resolved_value k now ls ≡ first_of (trimmed (last_said k ls)) now
unfolding resolved_value last_said
resolved_value-last_said k now [] h = refl
resolved_value-last_said k now (l ∷ ls) h = elim (Option-cases (under k (cut_eq l) none)) [
  | inl silent ↦ ground (arith, silent, value_of-cut k l h, resolved_value-last_said k now ls h)
  | inr (v, said) ↦
      ground
        (arith, said, value_of-cut k l h, resolved_value-last_said k (some (trim_quotes v)) ls h)
]

split_lines-line : (l s : Bytes) → Lacks b'\n' l → split_lines (l ++ b'\n' ∷ s) ≡ l ∷ split_lines s
unfolding split_lines
split_lines-line [] s h = refl
split_lines-line (c ∷ l) s (other, h) = ground (arith, other, split_lines-line l s h)

split_lines-one : (l : Bytes) → Lacks b'\n' l → split_lines l ≡ l ∷ []
unfolding split_lines
split_lines-one [] h = refl
split_lines-one (c ∷ l) (other, h) = ground (arith, other, split_lines-one l h)

split_lines-join_lines :
    (l : Bytes) (ls : List Bytes)
    → All (Lacks b'\n') (l ∷ ls)
    → split_lines (join_lines l ls) ≡ l ∷ ls
unfolding join_lines
split_lines-join_lines l [] (h, _) = split_lines-one l h
split_lines-join_lines l (m ∷ ls) (h, hs) =
    split_lines-line l (join_lines m ls) h ∙ ap (λ t. l ∷ t) (split_lines-join_lines m ls hs)

any-Memᴰ : (ns : List Bytes) (k : Bytes) → Memᴰ k ns → any (λ n. bytes_eq n k) ns ≡ true
any-Memᴰ [] k m = elim m [ ]
any-Memᴰ (n ∷ ns) k (Memᴰ.head same) = ground (arith, (bytes_eq_iff n k).1 (sym same))
any-Memᴰ (n ∷ ns) k (Memᴰ.tail m) = ground (arith, any-Memᴰ ns k m)

Memᴰ-any : (ns : List Bytes) (k : Bytes) → any (λ n. bytes_eq n k) ns ≡ true → Memᴰ k ns
Memᴰ-any [] k e = absurd (ground (arith, e))
Memᴰ-any (n ∷ ns) k e = elim (Bool-cases (bytes_eq n k)) [
  | inl same ↦ Memᴰ.head (sym ((bytes_eq_iff n k).0 same))
  | inr other ↦ Memᴰ.tail (Memᴰ-any ns k (ground (arith, e, other)))
]

is_wanted_iff : (k : Bytes) → (is_wanted k ≡ true) ↔ Memᴰ k wanted_names
unfolding is_wanted
is_wanted_iff k = (Memᴰ-any wanted_names k, any-Memᴰ wanted_names k)

trimmed-Gets :
    (said inherited : Option Bytes) → Gets said inherited (first_of (trimmed said) inherited)
trimmed-Gets none inherited = refl
trimmed-Gets (some v) inherited = (trim_quotes v, refl, trim_quotes-IsTrimmed v)

first_of-none : (o : Option Bytes) → first_of o none ≡ o
first_of-none none = refl
first_of-none (some v) = refl

-- A program that the opener starts finds under each of the six names of the session what the last
-- line of the environment block for it says, without any of the quotes at its two ends, and what
-- the daemon inherited if there is no such line; under any other name it finds what the daemon
-- inherited. No line has a newline in it, and a name has no `=`.
pub getenv-gui_env :
    (base : List Bytes) (l : Bytes) (ls : List Bytes) (k : Bytes)
    → All (Lacks b'\n') (l ∷ ls)
    → Plain k
    → (Memᴰ k wanted_names
        → Gets
            (last_said k (l ∷ ls))
            (getenv base k)
            (getenv (gui_env base (some (join_lines l ls))) k))
      × (¬ Memᴰ k wanted_names → getenv (gui_env base (some (join_lines l ls))) k ≡ getenv base k)
getenv-gui_env base l ls k lines plain =
    let out = join_lines l ls in
    let env = gui_env base (some out) in
    let said = last_said k (l ∷ ls) in
    let got = getenv-read_env env k plain ∙ read_env-gui_env base out k in
    let valued : resolved_value k none (split_lines out) ≡ trimmed said =
      ap (resolved_value k none) (split_lines-join_lines l ls lines)
      ∙ (resolved_value-last_said k none (l ∷ ls) plain ∙ first_of-none (trimmed said)) in
    let inherited = getenv-read_env base k plain in
    (
      λ named.
          subst (Gets said (getenv base k))
            (sym (ground (arith, got, valued, inherited, is_wanted_iff k, named)))
            (trimmed-Gets said (getenv base k)),
      λ unnamed. elim (Bool-cases (is_wanted k)) [
        | inl yes_k ↦ absurd (unnamed ((is_wanted_iff k).0 yes_k))
        | inr no_k ↦ ground (arith, got, inherited, no_k)
      ],
    )
