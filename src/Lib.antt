-- ===== src/Lib.antt =====
-- A verification of lopen: a daemon on the user's machine opens files and directories that
-- programs on remote hosts name. A client on a remote host sends one request over an ssh tunnel; the
-- daemon checks it, stages the payload, puts it into a mirror tree, and runs the opener on it.
--
-- The parts and their files. Base holds the shared types and lemmas, Fault the error values, Io
-- readers, writers and results, Paths the functions of Go's path and filepath, and Os the operating
-- system: a log of the calls that change something, and its answers, which may depend on the log.
-- * Protocol is internal/protocol/protocol.go: Protocol/Validate the checks of a request,
--   Protocol/Header the lines (`WriteRequest`, `ReadRequest`, `WriteEvent`, `ReadEvent`), and
--   Protocol/Chunk the framing of payloads (`ChunkWriter`, `ChunkReader`).
-- * Tar is internal/tarstream/tarstream.go: Tar/SafeJoin is `SafeJoin`, Tar/Unpack is `Unpack` with
--   one definition for each part of its loop, and Tar/Pack is `Pack`.
-- * Index is internal/index/index.go: an association list, saved after each
--   change; Index/Abstract is the map that it stands for.
-- * Mirror is internal/mirror/mirror.go: `Rel`, `Abs`, `CheckOverwrite`, `StagingDir` and `Promote`;
--   Mirror/Gc is `GC`, and Mirror/Prune is `pruneEmptyDirs`.
-- * Config is internal/config/config.go: `fill`, `AddHost`, `ValidDest` and the paths; Config/Store is
--   `Load`, `LoadRaw` and `Save`.
-- * Daemon is internal/daemon: Daemon/Tokens is tokens.go, Daemon/Shell is `shQuote` of tunnel.go, with
--   the words and scripts that a shell makes of its commands,
--   Daemon/Transfer is `receiveInline` and `pull` of server.go, Daemon/Handle is `handle`, with the
--   opener of opener.go and opener_darwin.go. Daemon/KeyedMutex is `keyedMutex` of server.go, as
--   steps of the goroutines that call it, in any order. Daemon/Tunnel has the waits of `Run` of
--   tunnel.go, and Daemon/Tunnel/Ssh its commands, with mux_unix.go. Daemon/Start is `NewServer` and
--   the loop of `Run` of server.go that starts the hosts, with listen_unix.go, and `runGC`. Daemon/GuiOpener is
--   opener_linux.go.
-- * Client is internal/client/client.go: `Open` up to the dial; Client/Dial is `dialRetry`, and
--   Client/Exchange is `Open` from the request to the verdict.
-- * Setup is internal/setup/setup.go: `FindAssets` and `Enroll`; Setup/Label is `deriveLabel`.
-- * Commands is cmd/lopen/main.go, and of cmd/lopend/main.go the choice of the subcommand, `setup`
--   and the configuration of `run`. Launchd is internal/launchd/launchd.go.
-- * Tests holds runs at concrete data.
-- The handler reads a request with Protocol/Header and hands the rest of the connection to the
-- transfer, which reads it with Protocol/Chunk and unpacks it with Tar; Mirror puts the result in
-- place and keeps it in Index. The client writes what the handler reads, with the same codec of the
-- request, and reads the lines of the events that the handler sends. What a tunnel provisions, the
-- client reads as its agent configuration. `Enroll` adds to the configuration that the daemon loads.
--
-- Numbers. An int64 is a natural number below 2 ^ 64 and keeps its wrap-around; times are
-- nanoseconds since the zero time and lengths are natural numbers.
--
-- Fuel. `write_chunks` takes the length of the bytes and each round writes at least one; `copy`
-- and `read_line` take one more than the bytes that are left, and each round that goes on takes
-- one; so do io.Copy of the client (`copy_source`) and its wait for the verdict (`await_verdict`),
-- by `copy_loop-ne-none` and `await_done-ne-none`. `dial_retry` takes one more than the half
-- seconds of its window and one; `prune_empty_dirs` takes a pass for each directory and one more,
-- by `prune_loop-ne-none`, and is `none` if they are not enough. `strip_front` takes the length of
-- the text, and each cut is of a byte at least.
--
-- Parameters. encoding/json, archive/tar, crypto/rand, strconv, flag, the dial, the clock, the output
-- of the commands, the environment and the answers of the operating system are arguments.
-- `Os.in_use` stands for lsof.
--
-- Not modelled: the commands `install`, `uninstall` and `doctor` of lopend, around Launchd and
-- Config; the instance lock, and the listener, the mux and the openers of Windows; the mutexes of
-- the index and of the tokens, the timeouts and the semaphore of the daemon: the handler is looked
-- at for one request alone, and keyedMutex apart from it; a negative window of retries;
-- `OpenCommand`, the hook of the tests of the opener; symbolic links, which a name cannot show;
-- what is printed. The writes of io.Copy into a file come after its reads, which changes no call
-- but its size.
pub mod Base
pub mod Fault
pub mod Io
pub mod Paths
pub mod Protocol
pub mod Os
pub mod Tar
pub mod Index
pub mod Mirror
pub mod Config
pub mod Client
pub mod Setup
pub mod Launchd
pub mod Commands
pub mod Daemon
pub mod Tests
