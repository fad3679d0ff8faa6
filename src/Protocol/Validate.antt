-- ===== src/Protocol/Validate.antt =====
-- `Request.Validate` of internal/protocol/protocol.go: the checks in their order.
pub mod Exact
use lopen.Base.{
  ℕ, zero, Bool, true, false, not, ◌&&◌, ◌||◌, Option, none, some, [], ◌∷◌, ◌==◌, ltb, length, any,
  if◌then◌else◌, Bytes, bytes_eq, Int64, lt64,
}
use lopen.Fault.{
  Error, unsupported_version, unknown_op, unknown_mode, invalid_label, path_not_absolute,
  path_too_long, path_control, invalid_app, bad_size,
}
use lopen.Protocol.{
  Request, version, op_open, op_reveal, mode_inline, mode_pull, valid_label, valid_app,
}

-- len(r.Path) == 0 || r.Path[0] != '/'
not_absolute : Bytes → Bool
not_absolute [] = true
not_absolute (c ∷ s) = not (c == b'/')

is_control : ℕ → Bool
is_control c = (c == 0) || (c == b'\n') || (c == b'\r')

is_empty : Bytes → Bool
is_empty [] = true
is_empty (c ∷ s) = false

-- `none` is Go's nil error
unfoldable pub validate : Request → Int64 → Option Error
unfolding not_absolute is_control is_empty
validate r max_payload =
    if not (r.v == version)
    then some unsupported_version
    else if not (bytes_eq r.op op_open || bytes_eq r.op op_reveal)
    then some unknown_op
    else if not (bytes_eq r.mode mode_inline || bytes_eq r.mode mode_pull)
    then some unknown_mode
    else if not (valid_label r.origin.label)
    then some invalid_label
    else if not_absolute r.path
    then some path_not_absolute
    else if ltb 4096 (length r.path)
    then some path_too_long
    else if any is_control r.path
    then some path_control
    else if not (is_empty r.app) && not (valid_app r.app)
    then some invalid_app
    else if lt64 r.size 0 || lt64 max_payload r.size
    then some bad_size
    else none
