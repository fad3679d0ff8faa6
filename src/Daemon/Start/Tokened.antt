-- ===== src/Daemon/Start/Tokened.antt =====
-- Each tunnel that Run starts has the token that the store ends with for its host.
use lopen.Base.{
  ◌≡◌, ◌≢◌, refl, ap, ◌∙◌, sym, Bool, Bool-cases, inl, inr, true, none, some, List, [], ◌∷◌, Bytes,
  bytes_eq, bytes_eq_iff, Map, lookup, length, map, All, arith,
}
use lopen.Io.{Codec, Result, ok, Result-cases}
use lopen.Os.{Os, Log}
use lopen.Config.{Host, Config}
use lopen.Daemon.Tokens.{TokenStore, ensure, valid}
use lopen.Daemon.Tokens.Laws.{IsEnsured, ensure-IsEnsured, valid_iff}
use lopen.Daemon.Tunnel.Ssh.{Tunnel}
use lopen.Daemon.Start.{Started, Bound, listen_local, start_with, start_host, start_hosts}

-- A token that is not empty stays.
abbrev pub Keeps : TokenStore → TokenStore → Type 0
Keeps ts ts' =
    (label t : Bytes) → lookup label ts.tokens ≡ some t → t ≢ [] → lookup label ts'.tokens ≡ some t

abbrev pub host_of : Tunnel → Host
host_of t = t.host

-- The tunnels are those of the hosts, and the store has the token of each.
pub record IsTokened (ts : TokenStore) (hs : List Host) (s : Started) : Type 0 where
  pub hosts : map host_of s.tunnels ≡ hs
  pub passes : All (λ (t : Tunnel). valid s.tokens t.host.label t.token ≡ true) s.tunnels
  pub keeps : Keeps ts s.tokens

abbrev IfDone : TokenStore → List Host → Started → Type 0
IfDone ts hs s = s.error ≡ none → IsTokened ts hs s

IsEnsured-Keeps : (ts ts' : TokenStore) (label t : Bytes) → IsEnsured ts ts' label t → Keeps ts ts'
IsEnsured-Keeps ts ts' label t e j u had full = elim (Bool-cases (bytes_eq j label)) [
  | inl same ↦
      let at : j ≡ label = (bytes_eq_iff j label).0 same in
      ap (λ k. lookup k ts'.tokens) at
      ∙ (e.held ∙ ap some (e.kept u (sym (ap (λ k. lookup k ts.tokens) at) ∙ had) full))
  | inr other ↦ e.others j (λ same. ground (arith, other, (bytes_eq_iff j label).1 same)) ∙ had
]

module _ (json : Codec (Map Bytes)) (os : Os) (rand : Log → Result Bytes)
    (live : Log → Bytes → Bool) (cfg : Config)
    (size : (l : Log) (b : Bytes) → rand l ≡ ok b → length b ≡ 32) where
  start_with-IfDone :
      (next : Log → TokenStore → Started) (h : Host) (hs : List Host) (sock : Bytes) (log : Log)
      (ts : TokenStore)
      → ((l : Log) (ts' : TokenStore) → IfDone ts' hs (next l ts'))
      → IfDone ts
          (h ∷ hs)
          (start_with json os rand live cfg next h sock (ensure json os rand log ts h.label))
  unfolding start_with
  start_with-IfDone next h hs sock log ts rest =
      let e = ensure json os rand log ts h.label in
      elim (Result-cases e.result) [
        | inl (f, failed) ↦ rw (failed, start_with) (λ bad. absurd (ground arith))
        | inr (token, got) ↦
            let made = ensure-IsEnsured json os rand log ts h.label token size got in
            rw (got, start_with)
              (λ done.
                let r = rest e.log e.store done in
                record {
                  hosts = ap (◌∷◌ h) r.hosts;
                  passes = (
                    (valid_iff _ h.label token).1
                        (r.keeps h.label token made.held made.not_empty, made.not_empty),
                    r.passes,
                  );
                  keeps = λ j u had full.
                      r.keeps j u (IsEnsured-Keeps ts e.store h.label token made j u had full) full;
                })
      ]

  start_host-IfDone :
      (next : Log → TokenStore → Started) (h : Host) (hs : List Host) (ts : TokenStore) (b : Bound)
      → ((l : Log) (ts' : TokenStore) → IfDone ts' hs (next l ts'))
      → IfDone ts (h ∷ hs) (start_host json os rand live cfg next h ts b)
  unfolding start_host
  start_host-IfDone next h hs ts b rest = elim (Result-cases b.socket) [
    | inl (e, failed) ↦ rw (failed, start_host) (λ bad. absurd (ground arith))
    | inr (sock, got) ↦ rw (got, start_host) (start_with-IfDone next h hs sock b.log ts rest)
  ]

  -- Where the loop of Run goes through, there is one tunnel for each host, in their order, the token
  -- of each passes for its label in the store behind the loop, and no token that was there before
  -- is replaced, but empty ones. The source of randomness gives 32 bytes where it gives any.
  pub start_hosts-IsTokened :
      (hs : List Host) (log : Log) (ts : TokenStore)
      → (start_hosts json os rand live cfg hs log ts).error ≡ none
      → IsTokened ts hs (start_hosts json os rand live cfg hs log ts)
  unfolding start_hosts
  start_hosts-IsTokened [] log ts done = record {
    hosts = refl;
    passes = tt;
    keeps = λ j u had full. had;
  }
  start_hosts-IsTokened (h ∷ hs) log ts done =
      start_host-IfDone (λ l ts'. start_hosts json os rand live cfg hs l ts') h hs ts
        (listen_local live os log cfg h.label) (λ l ts'. start_hosts-IsTokened hs l ts') done
