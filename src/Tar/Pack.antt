-- ===== src/Tar/Pack.antt =====
-- `Pack` of internal/tarstream/tarstream.go. archive/tar's writer is a parameter, with a state of
-- any type that includes the writer below it; what WalkDir hands over is the list of its visits.
use lopen.Base.{
  ℕ, ◌+◌, ◌/◌, ◌%◌, Bool, true, false, Option, none, some, List, [], ◌∷◌, ◌++◌, ◌==◌, leb, ltb,
  length, take, if◌then◌else◌, Bytes, bytes_eq, Int64,
}
use lopen.Fault.{Error, eof, is_eof, shrank}
use lopen.Io.{Result, ok, err, Source}
use lopen.Io.Copy.{Put, Transfer, copy_source}
use lopen.Paths.{slash, dot}
use lopen.Tar.Unpack.{Kind, directory, regular, other}

-- tar.Header, the fields that Pack sets
pub record Header : Type 0 where
  pub name : Bytes
  pub dir : Bool
  pub mode : ℕ
  pub size : Int64
  pub mtime : ℕ

pub record TarWriter (W : Type 0) : Type 0 where
  pub write_header : W → Header → Put W
  pub write : W → Bytes → Put W
  pub close : W → Put W

-- d.Info: the size, the time and the permissions
pub record Info : Type 0 where
  pub size : Int64
  pub mtime : ℕ
  pub mode : ℕ

pub record Met : Type 0 where
  -- filepath.Rel of the directory and the path
  pub rel : Result Bytes
  pub info : Result Info
  pub kind : Kind
  -- os.Open of the path
  pub content : Result Source

-- One call of the function that Pack gives to WalkDir.
pub data Visit : Type 0 where
  broken : Error → Visit
  met : Met → Visit

pub record Packed (W : Type 0) : Type 0 where
  pub state : W
  pub skipped : ℕ
  pub error : Option Error

-- What io.LimitReader of n bytes lets through.
unfoldable pub limit_reader : Int64 → Source → Source
limit_reader n src =
    if leb n (length src.left) then record { left = take n src.left; ending = eof } else src

module _ {W : Type 0} (tw : TarWriter W) (grain : Bytes → ℕ → ℕ) where
  -- The error of io.CopyN, and what Pack makes of it.
  unfoldable pub copy_n_error : Int64 → Transfer W → Option Error
  copy_n_error n t = elim t.error [
    | some e ↦ if is_eof e then some shrank else some e
    | none ↦ if ltb t.written n then some shrank else none
  ]

  unfoldable pub pack_content : Int64 → Put W → Result Source → Put W
  unfolding copy_n_error
  pack_content size headed content = elim headed.error [
    | some e ↦ headed
    | none ↦ elim content [
      | err e ↦ record { state = headed.state; error = some e }
      | ok src ↦
          let t = copy_source tw.write grain (limit_reader size src) headed.state in
          record { state = t.state; error = copy_n_error size t }
    ]
  ]

  -- 0o755, or 0o644 where the owner may not execute
  abbrev pub packed_mode : ℕ → ℕ
  packed_mode mode = if mode / 64 % 2 == 1 then 493 else 420

  unfoldable pub pack_kind : Kind → Bytes → Info → Result Source → W → ℕ → Packed W
  unfolding pack_content
  pack_kind directory rel info content w skipped =
      let h =
        tw.write_header w (record {
          name = rel ++ slash [];
          dir = true;
          mode = 493;
          size = 0;
          mtime = info.mtime;
        }) in
      record { state = h.state; skipped = skipped; error = h.error }
  pack_kind regular rel info content w skipped =
      let h = tw.write_header w (record {
        name = rel;
        dir = false;
        mode = packed_mode info.mode;
        size = info.size;
        mtime = info.mtime;
      }) in
      let p = pack_content info.size h content in
      record { state = p.state; skipped = skipped; error = p.error }
  pack_kind other rel info content w skipped = record {
    state = w;
    skipped = skipped + 1;
    error = none;
  }

  unfoldable pub pack_visit : Visit → W → ℕ → Packed W
  unfolding pack_kind
  pack_visit (broken e) w skipped = record { state = w; skipped = skipped; error = some e }
  pack_visit (met m) w skipped = elim m.rel [
    | err e ↦ record { state = w; skipped = skipped; error = some e }
    | ok rel ↦
        if bytes_eq rel dot
        then record { state = w; skipped = skipped; error = none }
        else elim m.info [
          | err e ↦ record { state = w; skipped = skipped; error = some e }
          | ok info ↦ pack_kind m.kind rel info m.content w skipped
        ]
  ]

  unfoldable pub pack_walk : List Visit → W → ℕ → Packed W
  unfolding pack_visit
  pack_walk [] w skipped = record { state = w; skipped = skipped; error = none }
  pack_walk (v ∷ vs) w skipped =
      let p = pack_visit v w skipped in
      let rest = pack_walk vs p.state p.skipped in elim p.error [ some e ↦ p | none ↦ rest ]

  unfoldable pub pack : List Visit → W → Packed W
  unfolding pack_walk
  pack vs w =
      let p = pack_walk vs w 0 in
      elim p.error [
        | some e ↦ p
        | none ↦
            let c = tw.close p.state in
            record { state = c.state; skipped = p.skipped; error = c.error }
      ]
