-- ===== src/Tar/Unpack/Budget.antt =====
-- What an archive can cost, whatever it holds and whatever the operating system answers.
use lopen.Base.{
  ℕ, suc, ◌+◌, ◌-◌, ◌≤◌, ◌<◌, ◌^◌, ◌≡◌, refl, false, ◌||◌, Option, none, some, List, [], ◌∷◌, ltb,
  ltb→le, length, length-take, take, if_intro, Bytes, All, Int64, lt64, lt64_bounds, sub64,
  sub64-eq-sub, arith, ||-false, false≢true, ◌∙◌, sym,
}
use lopen.Fault.{Error, is_eof, on_error_intro}
use lopen.Io.{Result, ok, err}
use lopen.Os.{Os, Log, mkdir_all, create, write_file, run}
use lopen.Paths.{dir}
use lopen.Tar.SafeJoin.{safe_join}
use lopen.Tar.Unpack.{
  Kind, directory, regular, other, Member, Archive, Progress, Unpacked, Turn, go, fail, write_bytes,
  settle, copy_member, regular_member, member_at, joined_member, one_member, unpack_loop, unpack,
  executable,
}

-- The bytes that the calls of a log hand to files.
abbrev pub written : Log → ℕ
written [] = 0
written (write_file p s ∷ log) = length s + written log
written (_ ∷ log) = written log

-- How many files they make.
abbrev pub created : Log → ℕ
created [] = 0
created (create p x ∷ log) = suc (created log)
created (_ ∷ log) = created log

size_fits : (a m : Int64) → a < 2 ^ 64 → m < 2 ^ 63 → (lt64 a 0 || lt64 m a) ≡ false → a ≤ m
size_fits a m ha hm h =
    let (low, high) = ||-false (lt64 a 0) (lt64 m a) h in
    (lt64_bounds a m ha hm).0 (λ e. false≢true (sym low ∙ e), λ e. false≢true (sym high ∙ e))

module _ (base : Log) (max_bytes : Int64) (max_entries : ℕ) where
  pub record IsCapped (log : Log) : Type 0 where
    pub bytes : written log ≤ written base + max_bytes
    pub files : created log ≤ created base + max_entries

  record IsCharged (p : Progress) : Type 0 where
    spent : written p.log + p.remaining ≤ written base + max_bytes
    signed : p.remaining < 2 ^ 63
    files : created p.log ≤ created base + p.entries
    members : p.entries ≤ max_entries

  abbrev TurnIsCharged : Turn → Type 0
  TurnIsCharged (go p) = IsCharged p
  TurnIsCharged (fail log e) = IsCapped log

  charge :
      (p : Progress) (log : Log) (n : ℕ)
      → IsCharged p
      → n ≤ p.remaining
      → written log ≤ written p.log + n
      → created log ≤ created base + p.entries
      → IsCharged (record p { log = log; remaining = sub64 p.remaining n })
  charge p log n c fits wrote made =
      let rest : sub64 p.remaining n ≡ p.remaining - n =
        sub64-eq-sub p.remaining n (omega (arith, c.signed)) fits in
      record {
        spent = omega (arith, rest, c.spent);
        signed = omega (arith, rest, c.signed);
        files = made;
        members = c.members;
      }

  settle-IsCharged :
      (p : Progress) (log : Log) (n : ℕ) (e : Option Error)
      → IsCharged p
      → n ≤ p.remaining
      → written log ≤ written p.log + n
      → created log ≤ created base + p.entries
      → TurnIsCharged (settle p log n e)
  unfolding settle
  settle-IsCharged p log n none c fits wrote made = charge p log n c fits wrote made
  settle-IsCharged p log n (some e) c fits wrote made =
      if_intro TurnIsCharged (is_eof e) (λ _. charge p log n c fits wrote made)
        (λ _. record { bytes = omega (arith, c.spent); files = omega (arith, c.members) })

  written-write_bytes :
      (os : Os) (log : Log) (target s : Bytes)
      → (written (write_bytes os log target s).log ≡ length s + written log)
        × (created (write_bytes os log target s).log ≡ created log)
  unfolding write_bytes run
  written-write_bytes os log target [] = (omega arith, refl)
  written-write_bytes os log target (c ∷ s) = (refl, refl)

  copy_member-IsCharged :
      (os : Os) (p : Progress) (log : Log) (target : Bytes) (m : Member)
      → IsCharged p
      → m.size ≤ p.remaining
      → written log ≡ written p.log
      → created log ≤ created base + p.entries
      → TurnIsCharged (copy_member os p log target m)
  unfolding copy_member run
  copy_member-IsCharged os p log target m c fits same made =
      let (w, f) = written-write_bytes os log target (take m.size m.body) in
      settle-IsCharged p _ (length (take m.size m.body)) _ c
        (omega (arith, length-take m.size m.body)) (omega (arith, w)) (omega (arith, f))

  -- A failure that has written nothing more.
  fail-IsCapped :
      (p : Progress) (log : Log)
      → IsCharged p
      → written log ≡ written p.log
      → created log ≤ created base + p.entries
      → IsCapped log
  fail-IsCapped p log c same made = record {
    bytes = omega (arith, c.spent);
    files = omega (arith, c.members);
  }

  regular_member-IsCharged :
      (os : Os) (p : Progress) (target : Bytes) (m : Member)
      → m.size < 2 ^ 64
      → IsCharged p
      → suc (created p.log) ≤ created base + p.entries
      → TurnIsCharged (regular_member os p target m)
  unfolding regular_member run
  regular_member-IsCharged os p target m int64 c made =
      if_intro TurnIsCharged (lt64 m.size 0 || lt64 p.remaining m.size)
        (λ _. fail-IsCapped p p.log c refl c.files)
        (λ fits.
          let made_dir = run os p.log (mkdir_all (dir target)) in
          let opened = run os made_dir.log (create target (executable m.mode)) in
          on_error_intro TurnIsCharged made_dir.error
            (λ e. fail-IsCapped p made_dir.log c refl c.files)
            (on_error_intro TurnIsCharged opened.error {stop = fail opened.log}
              (λ e. fail-IsCapped p opened.log c refl made)
              (copy_member-IsCharged os p opened.log target m c
                (size_fits m.size p.remaining int64 c.signed fits) refl made)))

  member_at-IsCharged :
      (os : Os) (p : Progress) (target : Bytes) (m : Member) (k : Kind)
      → m.size < 2 ^ 64
      → IsCharged p
      → suc (created p.log) ≤ created base + p.entries
      → TurnIsCharged (member_at os p target m k)
  unfolding member_at run
  member_at-IsCharged os p target m directory int64 c made =
      on_error_intro TurnIsCharged (run os p.log (mkdir_all target)).error
        (λ e. fail-IsCapped p _ c refl c.files)
        (record { spent = c.spent; signed = c.signed; files = c.files; members = c.members })
  member_at-IsCharged os p target m regular int64 c made =
      regular_member-IsCharged os p target m int64 c made
  member_at-IsCharged os p target m other int64 c made = record {
    spent = c.spent;
    signed = c.signed;
    files = c.files;
    members = c.members;
  }

  joined_member-IsCharged :
      (os : Os) (p : Progress) (m : Member) (r : Result Bytes)
      → m.size < 2 ^ 64
      → IsCharged p
      → suc (created p.log) ≤ created base + p.entries
      → TurnIsCharged (joined_member os p m r)
  unfolding joined_member
  joined_member-IsCharged os p m (err e) int64 c made = fail-IsCapped p _ c refl c.files
  joined_member-IsCharged os p m (ok target) int64 c made =
      member_at-IsCharged os p target m m.kind int64 c made

  one_member-IsCharged :
      (os : Os) (dest : Bytes) (p : Progress) (m : Member)
      → m.size < 2 ^ 64
      → IsCharged p
      → TurnIsCharged (one_member os dest max_entries p m)
  unfolding one_member
  one_member-IsCharged os dest p m int64 c =
      if_intro TurnIsCharged (ltb max_entries (p.entries + 1))
        (λ _. fail-IsCapped p _ c refl c.files)
        (λ room.
          joined_member-IsCharged os (record p { entries = p.entries + 1 }) m
            (safe_join dest m.name) int64
            (record {
              spent = c.spent;
              signed = c.signed;
              files = omega (arith, c.files);
              members = ltb→le _ _ room;
            })
            (omega (arith, c.files)))

  unpack_loop-IsCapped :
      (os : Os) (dest : Bytes) (p : Progress) (ms : List Member) (ending : Option Error)
      → All (λ m. m.size < 2 ^ 64) ms
      → IsCharged p
      → IsCapped (unpack_loop os dest max_entries p ms ending).log
  unfolding unpack_loop
  unpack_loop-IsCapped os dest p [] ending int64 c = fail-IsCapped p _ c refl c.files
  unpack_loop-IsCapped os dest p (m ∷ ms) ending (here, rest) c =
      after_turn (one_member os dest max_entries p m) (one_member-IsCharged os dest p m here c)
        (λ p'. unpack_loop-IsCapped os dest p' ms ending rest)
    where
      after_turn :
          (t : Turn)
          → TurnIsCharged t
          → ((p' : Progress)
              → IsCharged p'
              → IsCapped (unpack_loop os dest max_entries p' ms ending).log)
          → IsCapped
              (elim t as (λ _. Unpacked) [
                | fail log e ↦ record { log = log; skipped = p.skipped; error = some e }
                | go p' ↦ unpack_loop os dest max_entries p' ms ending
              ]).log
      after_turn (go p') h next = next p' h
      after_turn (fail log e) h next = h

-- Unpacking any archive, hostile or cut off, with any answers of the operating system: at most
-- max_bytes bytes are handed to files, and at most max_entries files are made. Sizes are int64, and
-- max_bytes is not negative.
pub unpack-IsCapped :
    (os : Os) (log : Log) (archive : Archive) (dest : Bytes) (max_bytes : Int64) (max_entries : ℕ)
    → All (λ m. m.size < 2 ^ 64) archive.members
    → max_bytes < 2 ^ 63
    → IsCapped log max_bytes max_entries (unpack os log archive dest max_bytes max_entries).log
unfolding unpack run
unpack-IsCapped os log archive dest max_bytes max_entries int64 signed =
    on_error_intro (λ (u : Unpacked). IsCapped log max_bytes max_entries u.log)
      (run os log (mkdir_all dest)).error
      {stop = λ e. record { log = (run os log (mkdir_all dest)).log; skipped = 0; error = some e }}
      (λ e. record { bytes = omega arith; files = omega arith })
      (unpack_loop-IsCapped log max_bytes max_entries os dest _ archive.members archive.ending int64
        (record {
          spent = omega arith;
          signed = signed;
          files = omega arith;
          members = omega arith;
        }))
