-- ===== src/Daemon/Shell/Words.antt =====
-- The words that a POSIX shell makes of a command without expansions, and that a quoted path is
-- one of them, unchanged.
use lopen.Base.{
  ℕ, Bool, true, false, Option, none, some, List, [], ◌∷◌, ◌++◌, ◌==◌, if◌then◌else◌, Bytes, codes,
  any, ◌≡◌, refl, ap, ◌∙◌, arith, append-nil, sym, Bool-cases, inl, inr,
}
use lopen.Daemon.Shell.{quoted, sh_quote, remote_command}

-- The bytes that mean something to the shell outside quotes, beside the blank, the quote and the
-- backslash.
abbrev pub specials : Bytes
specials = codes "|&;<>()$`\"*?[]#~=%!{}\t\n"

is_special : ℕ → Bool
is_special c = any (λ d. c == d) specials

abbrev pub put {ℓ} : {A : Type ℓ} → A → Option (List (List A)) → Option (List (List A))
put c none = none
put c (some []) = some ((c ∷ []) ∷ [])
put c (some (w ∷ ws)) = some ((c ∷ w) ∷ ws)

abbrev pub next_word : Option (List Bytes) → Option (List Bytes)
next_word none = none
next_word (some ws) = some ([] ∷ ws)

-- Inside single quotes all bytes stand for themselves up to the next quote; outside, a blank ends
-- the word and a backslash takes the next byte as it is. `none` is a command that the shell would
-- read in another way. The words come with the one that is being read in front.
mutual
  pub outside : Bytes → Option (List Bytes)
  outside [] = some ([] ∷ [])
  outside (c ∷ s) =
      if c == b'\''
      then inside s
      else if c == b' '
      then next_word (outside s)
      else if c == b'\\'
      then escaped s
      else if is_special c
      then none
      else put c (outside s)

  pub inside : Bytes → Option (List Bytes)
  inside [] = none
  inside (c ∷ s) = if c == b'\'' then outside s else put c (inside s)

  pub escaped : Bytes → Option (List Bytes)
  escaped [] = none
  escaped (c ∷ s) = put c (outside s)

-- The bytes of a word in front of what follows it.
abbrev pub onto : Bytes → Option (List Bytes) → Option (List Bytes)
onto [] ws = ws
onto (c ∷ s) ws = put c (onto s ws)

inside-quoted : (s rest : Bytes) → inside (quoted s ++ rest) ≡ onto s (outside rest)
unfolding inside outside escaped quoted
inside-quoted [] rest = refl
inside-quoted (c ∷ s) rest = elim (Bool-cases (c == b'\'')) [
  | inl e ↦ ground (arith, inside-quoted s rest)
  | inr e ↦ ground (arith, inside-quoted s rest)
]

outside-sh_quote : (s rest : Bytes) → outside (sh_quote s ++ rest) ≡ onto s (outside rest)
unfolding outside inside sh_quote
outside-sh_quote s rest = inside-quoted s rest

onto-nil : (s : Bytes) (ws : List Bytes) → onto s (some ([] ∷ ws)) ≡ some (s ∷ ws)
onto-nil [] ws = refl
onto-nil (c ∷ s) ws = rw (onto-nil s ws)

-- Quoted, any bytes are one word.
pub outside-sh_quote_only : (s : Bytes) → outside (sh_quote s) ≡ some (s ∷ [])
unfolding outside
outside-sh_quote_only s =
    ap outside (sym (append-nil (sh_quote s))) ∙ (outside-sh_quote s [] ∙ onto-nil s [])

-- Whatever bytes a path has, the shell on the remote host reads the command that pull builds as
-- `cat`, `--` and the path for a file, and as `tar`, `-C`, the path, `-cf`, `-` and `.` for a
-- directory: no byte of the path ends its word or is read as syntax.
pub outside-remote_command :
    (dir : Bool) (path : Bytes)
    → outside (remote_command dir path) ≡ (elim dir [
      | true ↦ some (codes "tar" ∷ codes "-C" ∷ path ∷ codes "-cf" ∷ codes "-" ∷ codes "." ∷ [])
      | false ↦ some (codes "cat" ∷ codes "--" ∷ path ∷ [])
    ])
unfolding remote_command outside is_special
outside-remote_command true path =
    ap (λ t. put b't' (put b'a' (put b'r' (next_word (put b'-' (put b'C' (next_word t)))))))
      (outside-sh_quote path (codes " -cf - .") ∙ onto-nil path _)
outside-remote_command false path =
    ap (λ t. put b'c' (put b'a' (put b't' (next_word (put b'-' (put b'-' (next_word t)))))))
      (outside-sh_quote_only path)
