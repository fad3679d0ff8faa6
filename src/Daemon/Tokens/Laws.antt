-- ===== src/Daemon/Tokens/Laws.antt =====
-- Which tokens pass, and what `ensure` leaves behind.
use lopen.Base.{
  ◌*◌, true, some, [], ◌∷◌, length, Bytes, bytes_eq, bytes_eq_iff, bytes_eq_refl, Map, lookup,
  lookup-insert, ◌≡◌, ◌≢◌, ◌↔◌, refl, ap, ◌∙◌, arith, Bool-cases, inl, inr, Option-cases,
}
use lopen.Io.{Codec, Result, ok, err}
use lopen.Os.{Os, Log}
use lopen.Daemon.Tokens.{TokenStore, hex, new_token, mint, token_of, ensure, valid}

length-hex : (b : Bytes) → length (hex b) ≡ 2 * length b
unfolding hex
length-hex [] = refl
length-hex (c ∷ b) = omega (arith, length-hex b)

-- A token passes for a label exactly when the store has that token for the label and it is not
-- empty: the empty token never passes, nor does any token for a label without one.
pub valid_iff :
    (ts : TokenStore) (label presented : Bytes)
    → (valid ts label presented ≡ true)
      ↔ ((lookup label ts.tokens ≡ some presented) × (presented ≢ []))
unfolding valid token_of
valid_iff ts label presented = elim (Option-cases (lookup label ts.tokens)) [
  | inl e ↦ (λ h. ground (arith, e, h, bytes_eq_refl []), λ h. ground (arith, e, h.0))
  | inr (t, e) ↦ (
    λ h.
        ground
          (arith, e, h, bytes_eq_iff t presented, bytes_eq_iff t [], bytes_eq_iff presented []),
    λ h. ground (
      arith,
      e,
      h.0,
      h.1,
      bytes_eq_iff t presented,
      bytes_eq_iff t [],
      bytes_eq_iff presented [],
    ),
  )
]

-- The store behind a call of `ensure`, which gave t for the label.
pub record IsEnsured (ts ts' : TokenStore) (label t : Bytes) : Type 0 where
  pub held : lookup label ts'.tokens ≡ some t
  pub not_empty : t ≢ []
  pub kept : (t' : Bytes) → lookup label ts.tokens ≡ some t' → t' ≢ [] → t ≡ t'
  pub others : (j : Bytes) → j ≢ label → lookup j ts'.tokens ≡ lookup j ts.tokens

module _ (json : Codec (Map Bytes)) (os : Os) (rand : Log → Result Bytes) where
  mint-IsEnsured :
      (log : Log) (ts : TokenStore) (label b t : Bytes)
      → length b ≡ 32
      → token_of ts label ≡ []
      → (mint json os log ts label (ok (hex b))).result ≡ ok t
      → IsEnsured ts (mint json os log ts label (ok (hex b))).store label t
  unfolding mint token_of
  mint-IsEnsured log ts label b t size none_yet e =
      let same : hex b ≡ t = ground (arith, e) in
      record {
        held = rw (lookup-insert label label (hex b) ts.tokens, bytes_eq_refl label) (ap some same);
        not_empty = λ nil. omega (arith, length-hex b, ap length (same ∙ nil));
        kept = λ t' had full. absurd (full (ground (arith, none_yet, had)));
        others = λ j other.
            ground (arith, lookup-insert label j (hex b) ts.tokens, bytes_eq_iff label j, other);
      }

  has-IsEnsured :
      (ts : TokenStore) (label t : Bytes)
      → token_of ts label ≢ []
      → token_of ts label ≡ t
      → IsEnsured ts ts label t
  unfolding token_of
  has-IsEnsured ts label t full e = elim (Option-cases (lookup label ts.tokens)) [
    | inl missing ↦ absurd (full (rw (missing, token_of)))
    | inr (t', had) ↦ record {
      held = ground (arith, had, e);
      not_empty = λ nil. full (e ∙ nil);
      kept = λ t'' had' _. ground (arith, had, had', e);
      others = λ j _. refl;
    }
  ]

  minted-IsEnsured :
      (log : Log) (ts : TokenStore) (label t : Bytes) (r : Result Bytes)
      → ((b : Bytes) → r ≡ ok b → length b ≡ 32)
      → token_of ts label ≡ []
      → (mint json os log ts label (new_token r)).result ≡ ok t
      → IsEnsured ts (mint json os log ts label (new_token r)).store label t
  unfolding new_token
  minted-IsEnsured log ts label t (err e) size none_yet h = absurd (unfold mint in cc)
  minted-IsEnsured log ts label t (ok b) size none_yet h =
      mint-IsEnsured log ts label b t (size b refl) none_yet h

  -- `ensure`, where it succeeds, gives the label a token that is not empty, the one that it has if
  -- it has one, and leaves the tokens of all other labels alone. The source of randomness gives 32
  -- bytes where it gives any.
  pub ensure-IsEnsured :
      (log : Log) (ts : TokenStore) (label t : Bytes)
      → ((l : Log) (b : Bytes) → rand l ≡ ok b → length b ≡ 32)
      → (ensure json os rand log ts label).result ≡ ok t
      → IsEnsured ts (ensure json os rand log ts label).store label t
  unfolding ensure
  ensure-IsEnsured log ts label t size = elim (Bool-cases (bytes_eq (token_of ts label) [])) [
    | inl empty ↦ rw empty (
        minted-IsEnsured log ts label t (rand log) (size log)
          ((bytes_eq_iff (token_of ts label) []).0 empty))
    | inr full ↦ rw full (λ e.
        has-IsEnsured ts label t (λ nil. ground (arith, full, nil, bytes_eq_refl []))
          (ground (arith, e)))
  ]
