-- ===== src/Daemon/Handle/Admitted.antt =====
-- Which requests the handler admits.
use lopen.Base.{
  ◌<◌, ◌^◌, true, none, some, List, [], ◌∷◌, Bytes, bytes_eq, bytes_eq_iff, lookup, ◌≡◌, ◌≢◌, ◌↔◌,
  ◌⊎◌, inl, inr, arith, Bool-cases, Option-cases,
}
use lopen.Protocol.{Request}
use lopen.Protocol.Validate.{validate}
use lopen.Protocol.Validate.Exact.{IsWellFormed, validate_iff}
use lopen.Config.{Host, find_host, host_by_label}
use lopen.Daemon.Tokens.{valid}
use lopen.Daemon.Tokens.Laws.{valid_iff}
use lopen.Daemon.Handle.{Env, Server, admit}

-- A host of the configuration has the label.
abbrev pub Enrolled : Bytes → List Host → Type 0
Enrolled l [] = ⊥
Enrolled l (h ∷ hs) = (h.label ≡ l) ⊎ Enrolled l hs

-- A request that the daemon may act on, for the tunnel of the host t.
pub record IsAdmitted (srv : Server) (t : Host) (req : Request) : Type 0 where
  pub well_formed : IsWellFormed req srv.cfg.max_payload_bytes
  pub enrolled : Enrolled req.origin.label srv.cfg.hosts
  pub own_tunnel : req.origin.label ≡ t.label
  pub secret : lookup t.label srv.tokens.tokens ≡ some req.token
  pub not_empty : req.token ≢ []

find_host-none : (l : Bytes) (hs : List Host) → find_host hs l ≡ none → ¬ Enrolled l hs
unfolding find_host
find_host-none l [] e h = h
find_host-none l (k ∷ hs) e (inl same) = ground (arith, e, same, bytes_eq_iff k.label l)
find_host-none l (k ∷ hs) e (inr more) =
    find_host-none l hs (ground (arith, e, bytes_eq_iff k.label l)) more

find_host-some : (l : Bytes) (hs : List Host) (h : Host) → find_host hs l ≡ some h → Enrolled l hs
unfolding find_host
find_host-some l [] h e = cc
find_host-some l (k ∷ hs) h e = elim (Bool-cases (bytes_eq k.label l)) [
  | inl same ↦ inl ((bytes_eq_iff k.label l).0 same)
  | inr other ↦ inr (find_host-some l hs h (ground (arith, e, other)))
]

module _ (env : Env) (srv : Server) (t : Host) (req : Request) (small : req.size < 2 ^ 64)
    (limit : srv.cfg.max_payload_bytes < 2 ^ 63) where
  admit_sound : admit env srv t req ≡ none → IsAdmitted srv t req
  unfolding admit host_by_label
  admit_sound h = elim (Option-cases (validate req srv.cfg.max_payload_bytes)) [
    | inr (e, bad) ↦ absurd (ground (arith, h, bad))
    | inl fine ↦ elim (Option-cases (find_host srv.cfg.hosts req.origin.label)) [
      | inl unknown ↦ absurd (ground (arith, h, fine, unknown))
      | inr (k, known) ↦
          let token : valid srv.tokens t.label req.token ≡ true = ground (arith, h, fine, known) in
          let (secret, full) = (valid_iff srv.tokens t.label req.token).0 token in
          record {
            well_formed = (validate_iff req srv.cfg.max_payload_bytes small limit).0 fine;
            enrolled = find_host-some req.origin.label srv.cfg.hosts k known;
            own_tunnel = (bytes_eq_iff req.origin.label t.label).0 (ground (arith, h, fine, known));
            secret = secret;
            not_empty = full;
          }
    ]
  ]

  admit_complete : IsAdmitted srv t req → admit env srv t req ≡ none
  unfolding admit host_by_label
  admit_complete a = elim (Option-cases (find_host srv.cfg.hosts req.origin.label)) [
    | inl unknown ↦ absurd (find_host-none req.origin.label srv.cfg.hosts unknown a.enrolled)
    | inr (k, known) ↦ ground (
      arith,
      known,
      (validate_iff req srv.cfg.max_payload_bytes small limit).1 a.well_formed,
      (bytes_eq_iff req.origin.label t.label).1 a.own_tunnel,
      (valid_iff srv.tokens t.label req.token).1 (a.secret, a.not_empty),
    )
  ]

  -- The checks pass exactly the requests that are well formed, name an enrolled label that is the
  -- label of the tunnel's own host, and carry the token that the daemon holds for it, which is not
  -- empty. The declared size is any int64, the cap on payloads is not negative.
  pub admit_iff : (admit env srv t req ≡ none) ↔ IsAdmitted srv t req
  admit_iff = (admit_sound, admit_complete)
