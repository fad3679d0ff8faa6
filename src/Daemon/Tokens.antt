-- ===== src/Daemon/Tokens.antt =====
-- internal/daemon/tokens.go: one secret for each host label. encoding/json and crypto/rand are
-- parameters; a decode that fails behind part of the map gives `some` of that part.
pub mod Laws
use lopen.Base.{
  ℕ, ◌+◌, ◌-◌, ◌/◌, ◌%◌, Bool, true, false, ◌||◌, Option, none, some, [], ◌∷◌, ◌++◌, ltb,
  if◌then◌else◌, Bytes, codes, bytes_eq, Map, lookup, insert,
}
use lopen.Fault.{Error, on_error, marshal_failed}
use lopen.Io.{Codec, Result, ok, err}
use lopen.Os.{Os, Log, save_file, rename, absent, unreadable, content, Did, run}

pub record TokenStore : Type 0 where
  pub path : Bytes
  pub tokens : Map Bytes

unfoldable pub load_tokens : Codec (Map Bytes) → Os → Log → Bytes → Result TokenStore
load_tokens json os log path = elim (os.read_file log path) [
  | absent ↦ ok (record { path = path; tokens = [] })
  | unreadable e ↦ err e
  | content b ↦ elim (json.unmarshal b) [
    | none ↦ ok (record { path = path; tokens = [] })
    | some ts ↦ ok (record { path = path; tokens = ts })
  ]
]

unfoldable pub save_tokens : Codec (Map Bytes) → Os → Log → TokenStore → Did
save_tokens json os log ts = elim (json.marshal ts.tokens) [
  | none ↦ record { log = log; error = some marshal_failed }
  | some b ↦
      let tmp = ts.path ++ codes ".tmp" in
      let w = run os log (save_file tmp b) in
      on_error w.error (λ e. w) (run os w.log (rename tmp ts.path))
]

-- hex.EncodeToString
abbrev pub hex_digit : ℕ → ℕ
hex_digit n = if ltb n 10 then b'0' + n else b'a' + (n - 10)

unfoldable pub hex : Bytes → Bytes
hex [] = []
hex (b ∷ s) = hex_digit (b / 16) ∷ hex_digit (b % 16) ∷ hex s

-- rand.Read into 32 bytes
unfoldable pub new_token : Result Bytes → Result Bytes
new_token (err e) = err e
new_token (ok b) = ok (hex b)

pub record Ensured : Type 0 where
  pub store : TokenStore
  pub log : Log
  pub result : Result Bytes

unfoldable pub mint : Codec (Map Bytes) → Os → Log → TokenStore → Bytes → Result Bytes → Ensured
mint json os log ts label (err e) = record { store = ts; log = log; result = err e }
mint json os log ts label (ok t) =
    let ts' : TokenStore = record ts { tokens = insert label t ts.tokens } in
    let d = save_tokens json os log ts' in
    record { store = ts'; log = d.log; result = on_error d.error (λ e. err e) (ok t) }

-- The zero value of a missing key is the empty token.
unfoldable pub token_of : TokenStore → Bytes → Bytes
token_of ts label = elim (lookup label ts.tokens) [ none ↦ [] | some t ↦ t ]

unfoldable pub ensure :
    Codec (Map Bytes) → Os → (Log → Result Bytes) → Log → TokenStore → Bytes → Ensured
ensure json os rand log ts label =
    if bytes_eq (token_of ts label) []
    then mint json os log ts label (new_token (rand log))
    else record { store = ts; log = log; result = ok (token_of ts label) }

-- ConstantTimeCompare is 1 exactly on equal bytes.
unfoldable pub valid : TokenStore → Bytes → Bytes → Bool
valid ts label presented =
    if bytes_eq (token_of ts label) [] || bytes_eq presented []
    then false
    else bytes_eq (token_of ts label) presented
