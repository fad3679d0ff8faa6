-- ===== src/Tar/Unpack/Calls.antt =====
-- The calls that unpacking makes, each allowed if it is for the places that the names are joined to.
use lopen.Base.{
  ℕ, ◌+◌, Bool, ◌||◌, Option, none, some, List, [], ◌∷◌, ltb, take, if_intro, Bytes, lt64, ◌≡◌,
  refl,
}
use lopen.Fault.{Error, is_eof, on_error_intro}
use lopen.Io.{Result, ok, err}
use lopen.Os.{Os, Log, Call, mkdir_all, create, write_file, close_file, run, Adds, start, more}
use lopen.Paths.{dir}
use lopen.Tar.SafeJoin.{safe_join}
use lopen.Tar.Unpack.{
  Kind, directory, regular, other, Member, Archive, Progress, Unpacked, Turn, go, fail, write_bytes,
  settle, copy_member, regular_member, member_at, joined_member, one_member, unpack_loop, unpack,
  executable,
}

-- What may be done at one place.
pub record Allows {ℓ} (P : Call → Type ℓ) (target : Bytes) : Type ℓ where
  pub makes : P (mkdir_all target)
  pub parent : P (mkdir_all (dir target))
  pub creates : (x : Bool) → P (create target x)
  pub writes : (s : Bytes) → P (write_file target s)
  pub closes : P (close_file target)

pub write_bytes-Adds {ℓ} :
    {P : Call → Type ℓ} {base : Log} (os : Os) (log : Log) (target s : Bytes)
    → ((t : Bytes) → P (write_file target t))
    → Adds P base log
    → Adds P base (write_bytes os log target s).log
unfolding write_bytes run
write_bytes-Adds os log target [] can h = h
write_bytes-Adds os log target (c ∷ s) can h = more (can (c ∷ s)) h

module _ {ℓ} (P : Call → Type ℓ) (dest : Bytes) (base : Log)
    (allowed : (name target : Bytes) → safe_join dest name ≡ ok target → Allows P target) where
  abbrev TurnAdds : Turn → Type ℓ
  TurnAdds (go p) = Adds P base p.log
  TurnAdds (fail log e) = Adds P base log

  settle-Adds :
      (p : Progress) (log : Log) (n : ℕ) (e : Option Error)
      → Adds P base log
      → TurnAdds (settle p log n e)
  unfolding settle
  settle-Adds p log n none h = h
  settle-Adds p log n (some e) h = if_intro TurnAdds (is_eof e) (λ _. h) (λ _. h)

  regular_member-Adds :
      (os : Os) (p : Progress) (target : Bytes) (m : Member)
      → Allows P target
      → Adds P base p.log
      → TurnAdds (regular_member os p target m)
  unfolding regular_member copy_member run
  regular_member-Adds os p target m a h =
      let made = run os p.log (mkdir_all (dir target)) in
      let opened = run os made.log (create target (executable m.mode)) in
      let ready : Adds P base opened.log = more (a.creates (executable m.mode)) (more a.parent h) in
      if_intro TurnAdds (lt64 m.size 0 || lt64 p.remaining m.size) (λ _. h)
        (λ _.
          on_error_intro TurnAdds made.error {stop = fail made.log} (λ _. more a.parent h)
            (on_error_intro TurnAdds opened.error {stop = fail opened.log} (λ _. ready)
              (settle-Adds p _ _ _ (
                more a.closes
                  (write_bytes-Adds os opened.log target (take m.size m.body) a.writes ready)))))

  member_at-Adds :
      (os : Os) (p : Progress) (target : Bytes) (m : Member) (k : Kind)
      → Allows P target
      → Adds P base p.log
      → TurnAdds (member_at os p target m k)
  unfolding member_at run
  member_at-Adds os p target m directory a h =
      on_error_intro TurnAdds (run os p.log (mkdir_all target)).error
        {stop = fail (mkdir_all target ∷ p.log)} (λ _. more a.makes h) (more a.makes h)
  member_at-Adds os p target m regular a h = regular_member-Adds os p target m a h
  member_at-Adds os p target m other a h = h

  joined_member-Adds :
      (os : Os) (p : Progress) (m : Member) (r : Result Bytes)
      → safe_join dest m.name ≡ r
      → Adds P base p.log
      → TurnAdds (joined_member os p m r)
  unfolding joined_member
  joined_member-Adds os p m (err e) eq h = h
  joined_member-Adds os p m (ok target) eq h =
      member_at-Adds os p target m m.kind (allowed m.name target eq) h

  one_member-Adds :
      (os : Os) (max_entries : ℕ) (p : Progress) (m : Member)
      → Adds P base p.log
      → TurnAdds (one_member os dest max_entries p m)
  unfolding one_member
  one_member-Adds os max_entries p m h =
      if_intro TurnAdds (ltb max_entries (p.entries + 1)) (λ _. h)
        (λ _. joined_member-Adds os (record p { entries = p.entries + 1 }) m _ refl h)

  unpack_loop-Adds :
      (os : Os) (max_entries : ℕ) (p : Progress) (ms : List Member) (ending : Option Error)
      → Adds P base p.log
      → Adds P base (unpack_loop os dest max_entries p ms ending).log
  unfolding unpack_loop
  unpack_loop-Adds os max_entries p [] ending h = h
  unpack_loop-Adds os max_entries p (m ∷ ms) ending h =
      after_turn (one_member os dest max_entries p m) (one_member-Adds os max_entries p m h)
        (λ p'. unpack_loop-Adds os max_entries p' ms ending)
    where
      after_turn :
          (t : Turn)
          → TurnAdds t
          → ((p' : Progress)
              → Adds P base p'.log
              → Adds P base (unpack_loop os dest max_entries p' ms ending).log)
          → Adds P base
              (elim t as (λ _. Unpacked) [
                | fail log e ↦ record { log = log; skipped = p.skipped; error = some e }
                | go p' ↦ unpack_loop os dest max_entries p' ms ending
              ]).log
      after_turn (go p') k next = next p' k
      after_turn (fail log e) k next = k

-- All that unpacking does is allowed, if making the destination is, and what is done at the places
-- that SafeJoin gives.
pub unpack-Adds {ℓ} :
    (P : Call → Type ℓ) (os : Os) (log : Log) (archive : Archive) (dest : Bytes)
    (max_bytes max_entries : ℕ)
    → P (mkdir_all dest)
    → ((name target : Bytes) → safe_join dest name ≡ ok target → Allows P target)
    → Adds P log (unpack os log archive dest max_bytes max_entries).log
unfolding unpack run
unpack-Adds P os log archive dest max_bytes max_entries here allowed =
    on_error_intro (λ (u : Unpacked). Adds P log u.log) (run os log (mkdir_all dest)).error
      {stop = λ e. record { log = mkdir_all dest ∷ log; skipped = 0; error = some e }}
      (λ _. more here start)
      (unpack_loop-Adds P dest log allowed os max_entries _ archive.members archive.ending
        (more here start))
