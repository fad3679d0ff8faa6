-- ===== src/Protocol.antt =====
-- internal/protocol/protocol.go: the constants, the messages, and the two anchored patterns.
pub mod Validate
pub mod Header
pub mod Chunk
use lopen.Base.{
  ℕ, suc, ◌*◌, ◌^◌, Bool, true, false, ◌&&◌, ◌||◌, List, [], ◌∷◌, ◌==◌, leb, length, all, Bytes,
  codes, Int64,
}

abbrev pub version : ℕ
version = 1

abbrev pub max_header_bytes : ℕ
max_header_bytes = 64 * 1024

abbrev pub max_chunk_bytes : ℕ
max_chunk_bytes = 2 ^ 20

abbrev pub max_event_bytes : ℕ
max_event_bytes = 64 * 1024

-- DefaultMaxPayload
abbrev pub default_max_payload : Int64
default_max_payload = 500 * 2 ^ 20

abbrev pub op_open : Bytes
op_open = codes "open"

abbrev pub op_reveal : Bytes
op_reveal = codes "reveal"

abbrev pub mode_inline : Bytes
mode_inline = codes "inline"

abbrev pub mode_pull : Bytes
mode_pull = codes "pull"

pub record Origin : Type 0 where
  pub host : Bytes
  pub label : Bytes

pub record Request : Type 0 where
  pub v : Int64
  pub op : Bytes
  pub origin : Origin
  pub path : Bytes
  pub dir : Bool
  pub wait : Bool
  pub force : Bool
  pub app : Bytes
  pub size : Int64
  pub mode : Bytes
  pub token : Bytes

pub record AgentConfig : Type 0 where
  pub label : Bytes
  pub port : Int64
  pub token : Bytes

pub record Event : Type 0 where
  pub event : Bytes
  pub status : Bytes
  pub error : Bytes
  pub detail : Bytes

-- A-Z, a-z, 0-9 and the underscore
unfoldable pub is_word : ℕ → Bool
is_word c =
    (leb b'A' c && leb c b'Z')
    || (leb b'a' c && leb c b'z')
    || (leb b'0' c && leb c b'9')
    || (c == b'_')

is_label_char : ℕ → Bool
is_label_char c = is_word c || (c == b'.') || (c == b'-')

is_app_start : ℕ → Bool
is_app_start c = is_word c || (c == b' ') || (c == b'.')

is_app_char : ℕ → Bool
is_app_char c = is_app_start c || (c == b'-')

-- `^[first][more]{0,limit}$`
anchored : (ℕ → Bool) → (ℕ → Bool) → ℕ → Bytes → Bool
anchored first more limit [] = false
anchored first more limit (c ∷ s) = first c && (leb (length s) limit && all more s)

unfoldable pub valid_label : Bytes → Bool
unfolding anchored is_word is_label_char
valid_label s = anchored is_word is_label_char 63 s

unfoldable pub valid_app : Bytes → Bool
unfolding anchored is_word is_app_start is_app_char
valid_app s = anchored is_app_start is_app_char 127 s
