-- ===== src/Tar/SafeJoin.antt =====
-- `SafeJoin` of internal/tarstream/tarstream.go, on Unix, where FromSlash changes nothing.
pub mod Confined
use lopen.Base.{◌||◌, [], ◌++◌, if◌then◌else◌, Bytes, bytes_eq, has_prefix, contains}
use lopen.Fault.{empty_name, nul_in_name, backslash_in_name, absolute_path, path_escapes_root}
use lopen.Io.{Result, ok, err}
use lopen.Paths.{slash, dotdot, is_abs, clean, join}

unfoldable pub safe_join : Bytes → Bytes → Result Bytes
safe_join root name =
    let cleaned = clean name in
    if bytes_eq name []
    then err empty_name
    else if contains 0 name
    then err nul_in_name
    else if contains b'\\' name
    then err backslash_in_name
    else if is_abs name
    then err absolute_path
    else if bytes_eq cleaned dotdot || has_prefix cleaned (dotdot ++ slash [])
    then err path_escapes_root
    else ok (join root cleaned)
