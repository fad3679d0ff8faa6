-- ===== src/Setup/Enrolled.antt =====
-- What Enroll runs, and what it makes of the configuration.
use lopen.Base.{
  ◌≡◌, ◌≢◌, ◌⊎◌, inl, inr, refl, ap, ◌∙◌, true, not, [], ◌∷◌, ◌++◌, Bytes, codes, Bool-cases,
  bytes_eq, arith, if_intro,
}
use lopen.Fault.{Error, on_error_intro, invalid_label}
use lopen.Io.{Result, ok, err, Result-cases}
use lopen.Os.{Os, Log, Call, exec, run, Adds, start, more}
use lopen.Paths.{join}
use lopen.Protocol.Validate.Exact.{IsLabel, valid_label_iff}
use lopen.Config.{Host, Config, valid_dest, add_host}
use lopen.Setup.{
  Options, Enrollment, ssh_args, scp_args, uname_command, chmod_command, host_of, give_up, added,
  push, push_for, enroll, name_or, remote_arch, first_line,
}
use lopen.Setup.Label.{derive_label}
use lopen.Setup.Label.Valid.{derive_label-IsLabel}

-- Which commands a destination that passes gets.
abbrev pub IsRemote : Bytes → Options → Call → Type 0
IsRemote assets o (exec args) =
    (valid_dest o.dest ≡ true)
    × (((command : Bytes) × (args ≡ ssh_args o command))
        ⊎ ((file : Bytes) × (target : Bytes) × (args ≡ scp_args o file target)))
IsRemote assets o _ = ⊥

-- The four commands of an enrollment that goes through, the last first.
abbrev pub steps : Bytes → Options → Bytes → Log → Log
steps assets o arch log =
    exec (ssh_args o chmod_command)
    ∷ exec (scp_args o (join assets (codes "lssh")) (codes ":bin/lssh"))
    ∷ exec (scp_args o (join assets (codes "lopen-linux-" ++ arch)) (codes ":bin/lopen"))
    ∷ exec (ssh_args o uname_command)
    ∷ log

-- The host stands behind the others, with a label that none of them has.
pub record IsEnrolled (assets : Bytes) (o : Options) (cfg : Config) (log : Log) (r : Enrollment)
    : Type 0 where
  pub done : r.result ≡ ok (host_of o)
  pub config : r.cfg ≡ record cfg { hosts = cfg.hosts ++ host_of o ∷ [] }
  pub label : IsLabel (host_of o).label
  pub commands :
      (arch : Bytes) × ((arch ≡ codes "amd64") ⊎ (arch ≡ codes "arm64"))
      × (r.log ≡ steps assets o arch log)

-- Nothing is changed, and only commands for a destination that passes were run.
pub record IsRefused (assets : Bytes) (o : Options) (cfg : Config) (log : Log) (r : Enrollment)
    : Type 0 where
  pub failed : (e : Error) × (r.result ≡ err e) × (o.label ≡ [] → e ≢ invalid_label)
  pub config : r.cfg ≡ cfg
  pub commands : Adds (IsRemote assets o) log r.log

module _ (os : Os) (stdout : Log → Bytes) (assets : Bytes) (o : Options) (cfg : Config)
    (log : Log) where
  abbrev pub IsEnding : Enrollment → Type 0
  IsEnding r = IsEnrolled assets o cfg log r ⊎ IsRefused assets o cfg log r

  give_up-IsEnding :
      (l : Log) (e : Error)
      → (o.label ≡ [] → e ≢ invalid_label)
      → Adds (IsRemote assets o) log l
      → IsEnding (give_up os stdout assets o cfg l e)
  unfolding give_up
  give_up-IsEnding l e other h =
      inr (record { failed = (e, refl, other); config = refl; commands = h })

  add_host_config :
      (h : Host) (cfg' : Config)
      → add_host cfg h ≡ ok cfg'
      → (cfg' ≡ record cfg { hosts = cfg.hosts ++ h ∷ [] }) × IsLabel h.label
  unfolding add_host
  add_host_config h cfg' e = (ground (arith, e), (valid_label_iff h.label).0 (ground (arith, e)))

  host_of-labelled : o.label ≡ [] → add_host cfg (host_of o) ≢ err invalid_label
  unfolding add_host host_of name_or bytes_eq
  host_of-labelled none_given =
      ground
        (arith, none_given, (valid_label_iff (derive_label o.dest)).1 (derive_label-IsLabel o.dest))

  added-IsEnding :
      (arch : Bytes)
      → (arch ≡ codes "amd64") ⊎ (arch ≡ codes "arm64")
      → Adds (IsRemote assets o) log (steps assets o arch log)
      → IsEnding (added os stdout assets o cfg (steps assets o arch log) (add_host cfg (host_of o)))
  unfolding added
  added-IsEnding arch known h = elim (Result-cases (add_host cfg (host_of o))) [
    | inl (e, failed) ↦
        rw (failed, added)
          (give_up-IsEnding (steps assets o arch log) e
            (λ none_given bad. host_of-labelled none_given (failed ∙ ap err bad)) h)
    | inr (cfg', fine) ↦
        let (same, label) = add_host_config (host_of o) cfg' fine in
        rw (fine, added)
          (inl
            (record { done = refl; config = same; label = label; commands = (arch, known, refl) }))
  ]

  module _ (passes : valid_dest o.dest ≡ true) where
    asked : Adds (IsRemote assets o) log (exec (ssh_args o uname_command) ∷ log)
    asked = more (passes, inl (uname_command, refl)) start

    push-IsEnding :
        (arch : Bytes)
        → (arch ≡ codes "amd64") ⊎ (arch ≡ codes "arm64")
        → IsEnding (push os stdout assets o cfg arch (exec (ssh_args o uname_command) ∷ log))
    unfolding push run
    push-IsEnding arch known =
        let log0 = exec (ssh_args o uname_command) ∷ log in
        let bin = join assets (codes "lopen-linux-" ++ arch) in
        let lssh = join assets (codes "lssh") in
        let h1 = more (passes, inr (bin, codes ":bin/lopen", refl)) asked in
        let h2 = more (passes, inr (lssh, codes ":bin/lssh", refl)) h1 in
        let h3 = more (passes, inl (chmod_command, refl)) h2 in
        if_intro IsEnding (not (os.exists log0 bin))
          (λ _. give_up-IsEnding log0 _ (λ _ bad. cc bad) asked)
          (λ _.
            on_error_intro IsEnding _ (λ e. give_up-IsEnding _ _ (λ _ bad. cc bad) h1)
              (on_error_intro IsEnding _ (λ e. give_up-IsEnding _ _ (λ _ bad. cc bad) h2)
                (on_error_intro IsEnding _ (λ e. give_up-IsEnding _ _ (λ _ bad. cc bad) h3)
                  (added-IsEnding arch known h3))))

    push_for-IsEnding :
        (r : Result Bytes)
        → ((e : Error) → r ≡ err e → e ≢ invalid_label)
        → ((arch : Bytes) → r ≡ ok arch → (arch ≡ codes "amd64") ⊎ (arch ≡ codes "arm64"))
        → IsEnding (push_for os stdout assets o cfg (exec (ssh_args o uname_command) ∷ log) r)
    unfolding push_for
    push_for-IsEnding (err e) other known = give_up-IsEnding _ e (λ _. other e refl) asked
    push_for-IsEnding (ok arch) other known = push-IsEnding arch (known arch refl)

  remote_arch_known :
      (m arch : Bytes) → remote_arch m ≡ ok arch → (arch ≡ codes "amd64") ⊎ (arch ≡ codes "arm64")
  unfolding remote_arch
  remote_arch_known m arch e = ground (arith, e)

  remote_arch_other : (m : Bytes) → remote_arch m ≢ err invalid_label
  unfolding remote_arch
  remote_arch_other m = ground arith

  -- Enroll ends in one of two ways. Either it runs four commands, the push of the binary for one of
  -- the two architectures among them, and puts the host behind the others, with the label that it
  -- was given or that deriveLabel gives, which has the required shape; or it returns an error, has
  -- run only ssh and scp to a destination that passes destRe, and leaves the configuration as it is;
  -- and the error is not that of a label without the shape if the label was left to deriveLabel.
  pub enroll-IsEnding : IsEnding (enroll os stdout assets o cfg log)
  unfolding enroll run
  enroll-IsEnding =
      let log0 = exec (ssh_args o uname_command) ∷ log in
      elim (Bool-cases (valid_dest o.dest)) [
        | inr bad ↦ rw (bad, enroll) (give_up-IsEnding log _ (λ _ no. cc no) start)
        | inl passes ↦
            rw (passes, enroll)
              (on_error_intro IsEnding _
                (λ e. give_up-IsEnding log0 _ (λ _ bad. cc bad) (asked passes))
                (push_for-IsEnding passes (remote_arch (first_line (stdout log0)))
                  (λ e at same. remote_arch_other (first_line (stdout log0)) (at ∙ ap err same))
                  (λ arch e. remote_arch_known (first_line (stdout log0)) arch e)))
      ]
