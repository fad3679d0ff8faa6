-- ===== src/Daemon/Transfer.antt =====
-- receiveInline and pull of internal/daemon/server.go: the payload of a request, from the
-- connection or from the remote host, into the staging directory. The tar reader, the remote
-- command's output and its exit are parameters.
use lopen.Base.{
  ℕ, suc, Bool, true, false, Option, none, some, List, [], ◌∷◌, ◌++◌, ◌==◌, length, take,
  if◌then◌else◌, Bytes, Int64, add64, lt64,
}
use lopen.Fault.{Error, eof, on_error, unpacking, payload_too_large, out_of_fuel}
use lopen.Io.{Source}
use lopen.Os.{Os, Log, create, close_file, exec, run}
use lopen.Protocol.{Request}
use lopen.Protocol.Chunk.{Reader, new_reader, Copied, copy}
use lopen.Tar.Unpack.{Archive, unpack, write_bytes, first_error}
use lopen.Daemon.Shell.{remote_command}

-- maxArchiveEntries
abbrev pub max_archive_entries : ℕ
max_archive_entries = 200000

-- The world around a transfer.
pub record Peer : Type 0 where
  -- how many bytes a read hands over, and the buffer of io.Copy
  pub grain : Bytes → ℕ → ℕ
  pub asked : ℕ
  -- tar.NewReader over the chunks, and over the output of the remote command
  pub untar_chunks : Reader → Archive
  pub untar : Source → Archive
  -- whether the limit of the reader was used up when the unpacking was over
  pub used_up : Source → Int64 → Bool
  pub stdout : Log → Source
  pub wait_error : Log → Option Error

-- The error of an unpacked directory, or of a file that was copied, with the calls.
pub record Moved : Type 0 where
  pub log : Log
  pub error : Option Error

-- An open file: the bytes go in, it is closed, and the first error counts.
unfoldable pub fill_file : Os → Log → Bytes → Bytes → Option Error → Moved
fill_file os log path bytes read_error =
    let w = write_bytes os log path bytes in
    let c = run os w.log (close_file path) in
    record { log = c.log; error = first_error (first_error w.error read_error) c.error }

unfoldable pub copied_or : Option Copied → Reader → Copied
copied_or none cr = record { reader = cr; bytes = []; error = some out_of_fuel }
copied_or (some c) cr = c

-- io.Copy(f, cr); each read that goes on takes a byte, so this fuel is enough.
unfoldable pub copy_all : Peer → Reader → Copied
unfolding copied_or
copy_all peer cr = copied_or (copy peer.grain (suc (length cr.src.left)) peer.asked cr []) cr

unfoldable pub receive_dir : Peer → Os → Log → Int64 → Bytes → Reader → Moved
receive_dir peer os log max staged cr =
    let u = unpack os log (peer.untar_chunks cr) staged max max_archive_entries in
    record { log = u.log; error = on_error u.error (λ e. some (unpacking e)) none }

unfoldable pub receive_file : Peer → Os → Log → Bytes → Reader → Moved
receive_file peer os log staged cr =
    let f = run os log (create staged false) in
    let c = copy_all peer cr in
    on_error f.error (λ e. record { log = f.log; error = some e })
      (fill_file os f.log staged c.bytes c.error)

unfoldable pub receive_inline : Peer → Os → Log → Int64 → Source → Request → Bytes → Moved
receive_inline peer os log max br req staged =
    let cr = new_reader br max in
    if req.dir then receive_dir peer os log max staged cr else receive_file peer os log staged cr

-- What a LimitedReader of `limit` bytes lets through.
unfoldable pub limited : Int64 → Source → Source
limited limit src =
    if lt64 0 limit
    then record { left = take limit src.left; ending = src.ending }
    else record { left = []; ending = eof }

-- lr.N == 0 behind a copy of all of it
unfoldable pub limit_reached : Int64 → Source → Bool
limit_reached limit src = if lt64 0 limit then length (take limit src.left) == limit else limit == 0

-- io.EOF is no error of io.Copy, and the limit ends the copy without one.
unfoldable pub copy_error : Bool → Error → Option Error
copy_error true e = none
copy_error false eof = none
copy_error false e = some e

unfoldable pub pull_dir : Peer → Os → Log → Int64 → Bytes → Source → Moved
pull_dir peer os log max staged src =
    let u = unpack os log (peer.untar src) staged max max_archive_entries in
    record { log = u.log; error = u.error }

unfoldable pub pull_file : Os → Log → Bytes → Source → Bool → Moved
pull_file os log staged src reached =
    let f = run os log (create staged false) in
    on_error f.error (λ e. record { log = f.log; error = some e })
      (fill_file os f.log staged src.left (copy_error reached src.ending))

-- The returns at the end of pull: copyErr, the limit, and waitErr.
unfoldable pub pull_end : Moved → Bool → Option Error → Moved
pull_end m reached wait =
    on_error m.error (λ e. m)
      (if reached
        then record { log = m.log; error = some payload_too_large }
        else record { log = m.log; error = wait })

unfoldable pub pull_from : Peer → Os → Log → Int64 → Bool → Bytes → Int64 → Source → Moved
pull_from peer os log max dir staged limit src =
    let lr = limited limit src in
    let m =
      if dir
      then pull_dir peer os log max staged lr
      else pull_file os log staged lr (limit_reached limit src) in
    let reached = if dir then peer.used_up src limit else limit_reached limit src in
    pull_end m reached (peer.wait_error m.log)

-- `ssh` is the command of Tunnel.Exec up to the remote command.
unfoldable pub pull : Peer → Os → Log → Int64 → List Bytes → Request → Bytes → Moved
pull peer os log max ssh req staged =
    let d = run os log (exec (ssh ++ remote_command req.dir req.path ∷ [])) in
    on_error d.error (λ e. record { log = d.log; error = some e })
      (pull_from peer os d.log max req.dir staged (add64 max 1) (peer.stdout d.log))
