-- ===== src/Tests/Enrolling.antt =====
-- internal/setup/setup.go at one destination.
use lopen.Base.{◌≡◌, refl, true, false, none, [], ◌∷◌, ◌++◌, Bytes, codes, lt64}
use lopen.Os.{Log}
use lopen.Io.{ok}
use lopen.Setup.{Options, enroll, remote_arch, trim_space}
use lopen.Setup.Label.{derive_label}
use lopen.Setup.Enrolled.{IsEnding, enroll-IsEnding}
use lopen.Tests.Machine.{calm}
use lopen.Tests.Requests.{server}

-- The host part up to its first dot, and one dash for each stray rune.
labels :
    (derive_label (codes "me@dev-1.example.org") ≡ codes "dev-1")
    × (derive_label (codes "-x") ≡ codes "host-x")
    × (derive_label (195 ∷ 169 ∷ codes "t") ≡ codes "host-t")
unfolding derive_label lopen.Setup.Label.prefixed lopen.Setup.Label.label_chars
    lopen.Setup.Label.first_part lopen.Setup.Label.strip_user lopen.Setup.Label.is_start
    lopen.Setup.Label.rune_tail
labels = (refl, refl, refl)

arch : remote_arch (codes "x86_64\r") ≡ ok (codes "amd64")
unfolding remote_arch lopen.Base.bytes_eq trim_space lopen.Base.has_prefix
arch = refl

abbrev options : Options
options = record {
  dest = codes "me@dev-1.example.org";
  label = [];
  remote_port = 0;
  keep = false;
  ssh = [];
  scp = [];
}

abbrev uname : Log → Bytes
uname log = codes "x86_64\n"

enroll-IsEnding_example :
    IsEnding calm uname
      (codes "/a")
      options
      server.cfg
      []
      (enroll calm uname (codes "/a") options server.cfg [])
enroll-IsEnding_example = enroll-IsEnding calm uname (codes "/a") options server.cfg []
