-- ===== src/Daemon/Shell/Script.antt =====
-- The script that a POSIX shell makes of a command with `&&`, `>` and `~/`, and the script that
-- provision of internal/daemon/tunnel.go hands to the shell of the remote host.
use lopen.Base.{
  ℕ, true, false, Option, none, some, List, [], ◌∷◌, ◌++◌, ◌==◌, if◌then◌else◌, Bytes, codes, any,
  ◌≡◌, refl, ap, ◌∙◌, arith, append-nil, append_assoc, sym, Bool-cases, inl, inr,
}
use lopen.Daemon.Shell.{quoted, sh_quote}
use lopen.Daemon.Tunnel.Ssh.{provision_command}

-- A word, a word that starts with an unquoted `~/`, `&&`, and `>`.
pub data Token : Type 0 where
  word : Bytes → Token
  at_home : Bytes → Token
  both : Token
  into : Token

data Class : Type 0 where
  quote : Class
  escape : Class
  blank : Class
  amp : Class
  gt : Class
  tilde : Class
  other : Class
  plain : Class

-- The bytes that the shell would read in a way that is not described here.
abbrev others : Bytes
others = codes "|;<()$`\"*?[]#=!{}\t\n\r"

abbrev class_of : ℕ → Class
class_of c =
    if c == b'\''
    then quote
    else if c == b'\\'
    then escape
    else if c == b' '
    then blank
    else if c == b'&'
    then amp
    else if c == b'>'
    then gt
    else if c == b'~'
    then tilde
    else if any (λ d. c == d) others
    then other
    else plain

-- The word that is being read, if there is one.
data Current : Type 0 where
  between : Current
  reading : Bytes → Current
  reading_home : Bytes → Current

put_byte : Current → ℕ → Current
put_byte between c = reading (c ∷ [])
put_byte (reading w) c = reading (w ++ c ∷ [])
put_byte (reading_home w) c = reading_home (w ++ c ∷ [])

-- A quote starts a word, which may stay empty.
open_quote : Current → Current
open_quote between = reading []
open_quote (reading w) = reading w
open_quote (reading_home w) = reading_home w

front : Token → Option (List Token) → Option (List Token)
front t none = none
front t (some ts) = some (t ∷ ts)

-- The end of a word.
close_word : Current → Option (List Token) → Option (List Token)
close_word between ts = ts
close_word (reading w) ts = front (word w) ts
close_word (reading_home w) ts = front (at_home w) ts

-- Inside single quotes all bytes stand for themselves up to the next quote; outside, a blank ends
-- the word, a backslash takes the next byte as it is, and a tilde counts only with a slash behind it
-- at the start of a word. `none` is a command that the shell would read in another way.
mutual
  script : Current → Bytes → Option (List Token)
  script w [] = close_word w (some [])
  script w (c ∷ s) = elim (class_of c) [
    | quote ↦ in_quotes (open_quote w) s
    | escape ↦ escaped_in w s
    | blank ↦ close_word w (script between s)
    | amp ↦ close_word w (second_amp s)
    | gt ↦ close_word w (front into (script between s))
    | tilde ↦ home_slash w s
    | other ↦ none
    | plain ↦ script (put_byte w c) s
  ]

  in_quotes : Current → Bytes → Option (List Token)
  in_quotes w [] = none
  in_quotes w (c ∷ s) = elim (c == b'\'') [ true ↦ script w s | false ↦ in_quotes (put_byte w c) s ]

  escaped_in : Current → Bytes → Option (List Token)
  escaped_in w [] = none
  escaped_in w (c ∷ s) = script (put_byte w c) s

  second_amp : Bytes → Option (List Token)
  second_amp [] = none
  second_amp (c ∷ s) = elim (c == b'&') [ true ↦ front both (script between s) | false ↦ none ]

  home_slash : Current → Bytes → Option (List Token)
  home_slash w [] = none
  home_slash (reading w) (c ∷ s) = none
  home_slash (reading_home w) (c ∷ s) = none
  home_slash between (c ∷ s) = elim (c == b'/') [ true ↦ script (reading_home []) s | false ↦ none ]

pub script_of : Bytes → Option (List Token)
script_of s = script between s

in_quotes-quoted :
    (w s rest : Bytes) → in_quotes (reading w) (quoted s ++ rest) ≡ script (reading (w ++ s)) rest
unfolding script in_quotes escaped_in put_byte open_quote quoted
in_quotes-quoted w [] rest = ap (λ t. script (reading t) rest) (sym (append-nil w))
in_quotes-quoted w (c ∷ s) rest =
    let behind =
      in_quotes-quoted (w ++ c ∷ []) s rest
      ∙ ap (λ t. script (reading t) rest) (append_assoc w (c ∷ []) s) in
    elim (Bool-cases (c == b'\'')) [
      | inl e ↦
          let same : b'\'' ≡ c = ground (arith, e) in
          rw e (ap (λ d. in_quotes (reading (w ++ d ∷ [])) (quoted s ++ rest)) same ∙ behind)
      | inr e ↦ rw e (rw (e, in_quotes) behind)
    ]

script-sh_quote : (s rest : Bytes) → script between (sh_quote s ++ rest) ≡ script (reading s) rest
unfolding script in_quotes open_quote sh_quote
script-sh_quote s rest = in_quotes-quoted [] s rest

-- What provision means the shell to run.
abbrev pub provision_script : Bytes → List Token
provision_script blob =
    word (codes "umask")
    ∷ word (codes "077")
    ∷ both
    ∷ word (codes "mkdir")
    ∷ word (codes "-p")
    ∷ at_home (codes ".lopen")
    ∷ both
    ∷ word (codes "chmod")
    ∷ word (codes "700")
    ∷ at_home (codes ".lopen")
    ∷ both
    ∷ word (codes "printf")
    ∷ word (codes "%s")
    ∷ word blob
    ∷ into
    ∷ at_home (codes ".lopen/agent.json.tmp")
    ∷ both
    ∷ word (codes "chmod")
    ∷ word (codes "600")
    ∷ at_home (codes ".lopen/agent.json.tmp")
    ∷ both
    ∷ word (codes "mv")
    ∷ word (codes "-f")
    ∷ at_home (codes ".lopen/agent.json.tmp")
    ∷ at_home (codes ".lopen/agent.json")
    ∷ []

abbrev tail_of : Bytes
tail_of =
    codes
      " > ~/.lopen/agent.json.tmp && chmod 600 ~/.lopen/agent.json.tmp && mv -f ~/.lopen/agent.json.tmp ~/.lopen/agent.json"

-- Whatever bytes the configuration has, the shell reads the command of provision as this script, in
-- which the configuration is one word.
pub script_of-provision_command :
    (blob : Bytes) → script_of (provision_command blob) ≡ some (provision_script blob)
unfolding script_of provision_command script in_quotes escaped_in second_amp home_slash put_byte
    open_quote front close_word
script_of-provision_command blob = rw (script-sh_quote blob tail_of) refl
