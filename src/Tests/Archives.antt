-- ===== src/Tests/Archives.antt =====
-- internal/tarstream/tarstream.go at a small archive.
use lopen.Base.{
  none, [], ◌∷◌, if◌then◌else◌, Bytes, bytes_eq, codes, contains, has_prefix, All, ◌≡◌, refl, arith,
}
use lopen.Fault.{eof, empty_name, nul_in_name, backslash_in_name, absolute_path, path_escapes_root}
use lopen.Io.{ok, err}
use lopen.Os.{Adds}
use lopen.Paths.{is_abs, split, stack, clean, render, walk, step, join_slash, join}
use lopen.Paths.Elements.{IsPlain}
use lopen.Paths.Descend.{descend}
use lopen.Tar.SafeJoin.{safe_join}
use lopen.Tar.SafeJoin.Confined.{below, placed, safe_join_exact, safe_join_confined}
use lopen.Tar.Unpack.{Archive, directory, regular, other, unpack}
use lopen.Tar.Unpack.Budget.{IsCapped, unpack-IsCapped}
use lopen.Tar.Unpack.Inside.{IsDest, IsInside, unpack-IsInside}
use lopen.Tests.Machine.{calm}

abbrev root : Bytes
root = codes "/m/x"

payload_IsDest : IsDest root
payload_IsDest = record {
  absolute = unfold is_abs in refl;
  cleaned = unfold clean stack is_abs walk step render join_slash split bytes_eq in refl;
  not_root = unfold stack is_abs walk step split bytes_eq in λ e. cc e;
}

safe_join_exact_example : safe_join (codes "/m/x") (codes "a/../b") ≡ (
    if bytes_eq (codes "a/../b") []
    then err empty_name
    else if contains 0 (codes "a/../b")
    then err nul_in_name
    else if contains b'\\' (codes "a/../b")
    then err backslash_in_name
    else if is_abs (codes "a/../b")
    then err absolute_path
    else placed (codes "/m/x") (descend [] (split (codes "a/../b"))))
safe_join_exact_example = safe_join_exact (codes "/m/x") (codes "a/../b") (λ e. cc)

joins : safe_join root (codes "a/../b") ≡ ok (codes "/m/x/b")
unfolding safe_join bytes_eq contains is_abs clean render stack walk split step join_slash
    has_prefix join
joins = refl

escapes : safe_join root (codes "a/../../b") ≡ err path_escapes_root
unfolding safe_join bytes_eq contains is_abs clean render stack walk split step join_slash
    has_prefix
escapes = refl

safe_join_confined_example : (els : _) × All IsPlain els × (codes "/m/x/b" ≡ below (clean root) els)
safe_join_confined_example =
    safe_join_confined root (codes "a/../b") (codes "/m/x/b") payload_IsDest.not_root joins

abbrev archive : Archive
archive = record {
  members =
      record { name = codes "d"; kind = directory; size = 0; mode = 0; body = []; ending = eof }
      ∷ record {
        name = codes "d/f";
        kind = regular;
        size = 2;
        mode = 64;
        body = 7 ∷ 8 ∷ [];
        ending = eof;
      }
      ∷ record { name = codes "d/l"; kind = other; size = 0; mode = 0; body = []; ending = eof }
      ∷ [];
  ending = none;
}

unpack-IsInside_example : Adds (IsInside root) [] (unpack calm [] archive root 100 10).log
unpack-IsInside_example = unpack-IsInside calm [] archive root 100 10 payload_IsDest

unpack-IsCapped_example : IsCapped [] 100 10 (unpack calm [] archive root 100 10).log
unpack-IsCapped_example =
    unpack-IsCapped calm [] archive root 100 10 (omega arith, (omega arith, (omega arith, tt)))
      (omega arith)
