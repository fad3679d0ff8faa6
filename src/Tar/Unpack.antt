-- ===== src/Tar/Unpack.antt =====
-- `Unpack` of internal/tarstream/tarstream.go. What archive/tar's reader hands over is a parameter:
-- the members in their order, each with its header, the bytes that can be read of it and the error
-- behind them, and the error that ends the archive, `none` for io.EOF.
pub mod Budget
pub mod Calls
pub mod Inside
use lopen.Base.{
  ℕ, suc, ◌+◌, ◌/◌, ◌%◌, min, Bool, true, ◌||◌, Option, none, some, List, [], ◌∷◌, ◌==◌, ltb,
  length, take, if◌then◌else◌, Bytes, Int64, lt64, sub64,
}
use lopen.Fault.{Error, is_eof, on_error, too_many_entries, entry_over_budget, rejected_entry}
use lopen.Io.{Result, ok, err}
use lopen.Os.{Os, Log, Call, mkdir_all, create, write_file, close_file, Did, run}
use lopen.Paths.{dir}
use lopen.Tar.SafeJoin.{safe_join}

pub data Kind : Type 0 where
  directory regular other : Kind

pub record Member : Type 0 where
  pub name : Bytes
  pub kind : Kind
  pub size : Int64
  pub mode : Int64
  pub body : Bytes
  pub ending : Error

pub record Archive : Type 0 where
  pub members : List Member
  pub ending : Option Error

-- What the loop keeps.
pub record Progress : Type 0 where
  pub log : Log
  pub remaining : Int64
  pub entries : ℕ
  pub skipped : ℕ

pub record Unpacked : Type 0 where
  pub log : Log
  pub skipped : ℕ
  pub error : Option Error

-- One member handled: go on, or return the error.
pub data Turn : Type 0 where
  go : Progress → Turn
  fail : Log → Error → Turn

-- hdr.Mode & 0o100 != 0
executable : Int64 → Bool
executable mode = mode / 64 % 2 == 1

-- The error of io.CopyN(f, tr, size) when every write succeeds.
short : Member → Option Error
short m = if ltb (length m.body) m.size then some m.ending else none

abbrev pub first_error : Option Error → Option Error → Option Error
first_error none e = e
first_error (some e) _ = some e

-- `err != nil && !errors.Is(err, io.EOF)`
settle : Progress → Log → ℕ → Option Error → Turn
settle p log n none = go (record p { log = log; remaining = sub64 p.remaining n })
settle p log n (some e) =
    if is_eof e then go (record p { log = log; remaining = sub64 p.remaining n }) else fail log e

-- io.Copy makes no write where there is no byte.
unfoldable pub write_bytes : Os → Log → Bytes → Bytes → Did
write_bytes os log target [] = record { log = log; error = none }
write_bytes os log target (c ∷ s) = run os log (write_file target (c ∷ s))

-- The file is open: copy, close, and charge what was copied.
copy_member : Os → Progress → Log → Bytes → Member → Turn
copy_member os p log target m =
    let bytes = take m.size m.body in
    let w = write_bytes os log target bytes in
    let c = run os w.log (close_file target) in
    settle p c.log (length bytes) (first_error (first_error w.error (short m)) c.error)

regular_member : Os → Progress → Bytes → Member → Turn
regular_member os p target m =
    let d = run os p.log (mkdir_all (dir target)) in
    let f = run os d.log (create target (executable m.mode)) in
    if lt64 m.size 0 || lt64 p.remaining m.size
    then fail p.log entry_over_budget
    else on_error d.error (fail d.log)
        (on_error f.error (fail f.log) (copy_member os p f.log target m))

-- The switch on hdr.Typeflag
member_at : Os → Progress → Bytes → Member → Kind → Turn
member_at os p target m directory =
    let d = run os p.log (mkdir_all target) in
    on_error d.error (fail d.log) (go (record p { log = d.log }))
member_at os p target m regular = regular_member os p target m
member_at os p target m other = go (record p { skipped = p.skipped + 1 })

-- What SafeJoin says of the name.
joined_member : Os → Progress → Member → Result Bytes → Turn
joined_member os p m (err e) = fail p.log (rejected_entry e)
joined_member os p m (ok target) = member_at os p target m m.kind

-- One round of the loop, for a member that `Next` gave.
one_member : Os → Bytes → ℕ → Progress → Member → Turn
one_member os dest max_entries p m =
    if ltb max_entries (p.entries + 1)
    then fail p.log too_many_entries
    else joined_member os (record p { entries = p.entries + 1 }) m (safe_join dest m.name)

unpack_loop : Os → Bytes → ℕ → Progress → List Member → Option Error → Unpacked
unpack_loop os dest max_entries p [] ending = record {
  log = p.log;
  skipped = p.skipped;
  error = ending;
}
unpack_loop os dest max_entries p (m ∷ ms) ending = elim (one_member os dest max_entries p m) [
  | fail log e ↦ record { log = log; skipped = p.skipped; error = some e }
  | go p' ↦ unpack_loop os dest max_entries p' ms ending
]

pub unpack : Os → Log → Archive → Bytes → Int64 → ℕ → Unpacked
unpack os log archive dest max_bytes max_entries =
    let d = run os log (mkdir_all dest) in
    let start : Progress = record {
      log = d.log;
      remaining = max_bytes;
      entries = 0;
      skipped = 0;
    } in
    let rest = unpack_loop os dest max_entries start archive.members archive.ending in
    on_error d.error (λ e. record { log = d.log; skipped = 0; error = some e }) rest
