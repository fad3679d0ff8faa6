-- ===== src/Fault.antt =====
-- The errors of the program, one constructor for each place that makes one, and those of the
-- standard library that the code tells apart. The texts of the messages are not modelled.

use lopen.Base.{Bool, true, false, Option, none, some, Bytes}

pub data Error : Type 0 where
  -- io and the operating system
  eof unexpected_eof : Error
  io_fault : Error
  -- a loop of the model that was given too little fuel
  out_of_fuel : Error
  -- internal/protocol/protocol.go
  unsupported_version unknown_op unknown_mode invalid_label : Error
  path_not_absolute path_too_long path_control invalid_app bad_size : Error
  marshal_failed header_too_large header_exceeds_limit bad_header line_exceeds_limit bad_event :
      Error
  -- %w of the error of the read
  bad_chunk_header : Error → Error
  chunk_too_large payload_too_large : Error
  -- internal/tarstream/tarstream.go
  empty_name nul_in_name backslash_in_name absolute_path path_escapes_root : Error
  too_many_entries entry_over_budget : Error
  shrank : Error
  -- %w of the error of SafeJoin
  rejected_entry : Error → Error
  -- internal/mirror/mirror.go
  locally_modified mirror_root : Error
  -- internal/config/config.go
  invalid_dest duplicate_label already_enrolled invalid_port : Error
  no_config bad_config : Error
  -- internal/daemon
  -- %w of the error of Unpack
  unpacking : Error → Error
  unknown_origin origin_mismatch authentication_failed inline_disabled open_failed : Error
  -- %w of the error of provision, and of a step of Run for a host
  provisioning host_failed : Error → Error
  socket_in_use : Error
  app_unsupported no_opener no_program show_items : Error
  -- internal/setup/setup.go
  no_assets unsupported_arch missing_binary : Error
  -- %w of the error of a command
  ssh_failed scp_lopen scp_lssh chmod_failed : Error → Error
  -- internal/launchd/launchd.go
  no_home : Error
  bootstrap_failed : Error → Error
  -- internal/client/client.go
  not_enrolled bad_agent incomplete_agent bad_agent_port bad_agent_label : Error
  over_limit : Error
  -- the last error of the dial, which is not wrapped
  unreachable : Error → Error
  -- %w of the error of EvalSymlinks, of Pack, and of ReadEvent, before the payload and behind it
  unresolved packing daemon_failed lost : Error → Error
  -- errors.New of the text of the daemon
  daemon_said : Bytes → Error

-- errors.Is(err, io.EOF), which looks through %w
unfoldable pub is_eof : Error → Bool
is_eof eof = true
is_eof (bad_chunk_header e) = is_eof e
is_eof (rejected_entry e) = is_eof e
is_eof (unpacking e) = is_eof e
is_eof (provisioning e) = is_eof e
is_eof (host_failed e) = is_eof e
is_eof (ssh_failed e) = is_eof e
is_eof (bootstrap_failed e) = is_eof e
is_eof (scp_lopen e) = is_eof e
is_eof (scp_lssh e) = is_eof e
is_eof (chmod_failed e) = is_eof e
is_eof (unresolved e) = is_eof e
is_eof (packing e) = is_eof e
is_eof (daemon_failed e) = is_eof e
is_eof (lost e) = is_eof e
is_eof _ = false

-- `if err != nil { return … }`
abbrev pub on_error {ℓ} : {A : Type ℓ} → Option Error → (Error → A) → A → A
on_error none stop next = next
on_error (some e) stop next = stop e

pub on_error_intro {ℓ κ} :
    {A : Type ℓ} (P : A → Type κ) (o : Option Error) {stop : Error → A} {next : A}
    → ((e : Error) → P (stop e))
    → P next
    → P (on_error o stop next)
on_error_intro P none f g = g
on_error_intro P (some e) f g = f e
