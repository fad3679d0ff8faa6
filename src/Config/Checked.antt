-- ===== src/Config/Checked.antt =====
-- What a configuration has behind `fill` and `AddHost`, and which destinations pass.
use lopen.Base.{
  ◌≤◌, ◌<◌, ◌^◌, some, Option-cases, sym, ◌∙◌, true, false, ◌||◌, List, [], ◌∷◌, ◌++◌, any, Bytes,
  bytes_eq, bytes_eq_iff, Int64, lt64, All, map, ◌≡◌, ◌≢◌, ◌↔◌, ◌⊎◌, inl, inr, refl, arith,
}
use lopen.Fault.{Error}
use lopen.Io.{ok, err, >>=-eq-ok, Result-cases}
use lopen.Protocol.Validate.Exact.{IsLabel, valid_label_iff}
use lopen.Config.{
  Host, Config, Env, valid_dest, fill_host, fill_hosts, with_defaults, fill_at, fill, add_host,
  default_remote_port, or_default,
}

abbrev pub HasPort : Int64 → Type 0
HasPort p = (1 ≤ p) × (p ≤ 65535)

-- A host that a daemon can have behind hosts with the labels `seen`.
pub record IsEnrollable (seen : List Bytes) (h : Host) : Type 0 where
  pub label : IsLabel h.label
  pub fresh : All (λ l. l ≢ h.label) seen
  pub dest : valid_dest h.dest ≡ true
  pub port : (h.remote_port ≡ 0) ⊎ HasPort h.remote_port

-- Each host is one that a daemon can have, behind those before it.
abbrev pub AllEnrollable : List Bytes → List Host → Type 0
AllEnrollable seen [] = Unit
AllEnrollable seen (h ∷ hs) = IsEnrollable seen h × AllEnrollable (h.label ∷ seen) hs

-- The host with the default port where it has none.
abbrev pub ported : Host → Host
ported h = record h { remote_port = or_default h.remote_port default_remote_port }

port_iff :
    (p : Int64)
    → p < 2 ^ 64
    → ((lt64 (or_default p default_remote_port) 1 || lt64 65535 (or_default p default_remote_port))
        ≡ false)
      ↔ ((p ≡ 0) ⊎ HasPort p)
unfolding lt64
port_iff p h = ground arith

fresh_iff :
    (seen : List Bytes) (l : Bytes) → (any (λ k. bytes_eq k l) seen ≡ false) ↔ All (λ k. k ≢ l) seen
fresh_iff [] l = (λ e. tt, λ e. refl)
fresh_iff (k ∷ seen) l = ground (arith, bytes_eq_iff k l, fresh_iff seen l)

fill_host_iff :
    (seen : List Bytes) (h : Host)
    → h.remote_port < 2 ^ 64
    → (IsEnrollable seen h → fill_host seen h ≡ ok (ported h))
      × ((h' : Host) → fill_host seen h ≡ ok h' → IsEnrollable seen h)
unfolding fill_host
fill_host_iff seen h small = (
  λ g. ground (
    arith,
    (valid_label_iff h.label).1 g.label,
    (fresh_iff seen h.label).1 g.fresh,
    g.dest,
    (port_iff h.remote_port small).1 g.port,
  ),
  λ h' e.
      ground
        (arith, e, valid_label_iff h.label, fresh_iff seen h.label, port_iff h.remote_port small),
)

fill_hosts_sound :
    (seen : List Bytes) (hs hs' : List Host)
    → All (λ h. h.remote_port < 2 ^ 64) hs
    → fill_hosts seen hs ≡ ok hs'
    → AllEnrollable seen hs × (hs' ≡ map ported hs)
unfolding fill_hosts
fill_hosts_sound seen [] hs' small e = (tt, ground arith)
fill_hosts_sound seen (h ∷ hs) hs' (here, small) e =
    let (h', e1, e2) = >>=-eq-ok (fill_host seen h) _ e in
    let (rest, e3, e4) = >>=-eq-ok (fill_hosts (h.label ∷ seen) hs) _ e2 in
    let good = (fill_host_iff seen h here).1 h' e1 in
    let (goods, same) = fill_hosts_sound (h.label ∷ seen) hs rest small e3 in
    ((good, goods), ground (arith, (fill_host_iff seen h here).0 good, e1, e4, same))

fill_hosts_complete :
    (seen : List Bytes) (hs : List Host)
    → All (λ h. h.remote_port < 2 ^ 64) hs
    → AllEnrollable seen hs
    → fill_hosts seen hs ≡ ok (map ported hs)
unfolding fill_hosts
fill_hosts_complete seen [] small g = refl
fill_hosts_complete seen (h ∷ hs) (here, small) (g, gs) =
    rw ((fill_host_iff seen h here).0 g) (rw (fill_hosts_complete (h.label ∷ seen) hs small gs))

-- What fill leaves in place of the zero values.
pub record IsComplete (c : Config) : Type 0 where
  pub ttl : c.ttl_days ≢ 0
  pub mirror_cap : c.max_mirror_bytes ≢ 0
  pub payload_cap : c.max_payload_bytes ≢ 0

fill_at_complete :
    (env : Env) (home : Bytes) (c : Config)
    → All (λ h. h.remote_port < 2 ^ 64) c.hosts
    → AllEnrollable [] c.hosts
    → (c' : Config) × (fill_at env home c ≡ ok c')
unfolding fill_at
fill_at_complete env home c small g =
    (with_defaults env home c (map ported c.hosts), rw (fill_hosts_complete [] c.hosts small g))

fill_at_sound :
    (env : Env) (home : Bytes) (c c' : Config)
    → All (λ h. h.remote_port < 2 ^ 64) c.hosts
    → fill_at env home c ≡ ok c'
    → AllEnrollable [] c.hosts × (c'.hosts ≡ map ported c.hosts) × IsComplete c'
unfolding fill_at with_defaults
fill_at_sound env home c c' small e =
    let (hosts, e1, e2) = >>=-eq-ok (fill_hosts [] c.hosts) _ e in
    let (g, same) = fill_hosts_sound [] c.hosts hosts small e1 in
    (
      g,
      ground (arith, e2, same),
      record {
        ttl = ground (arith, e2);
        mirror_cap = ground (arith, e2);
        payload_cap = ground (arith, e2);
      },
    )

fill_home :
    (env : Env) (home : Bytes) (c : Config) → env.home ≡ some home → fill env c ≡ fill_at env home c
unfolding fill
fill_home env home c known = ground (arith, known)

abbrev pub HasHome : Env → Type 0
HasHome env = (home : Bytes) × (env.home ≡ some home)

-- `fill` accepts a configuration exactly when the home directory is known and each host has a label
-- of the required shape that no host before it has, a valid destination, and a port that is 0 or
-- from 1 to 65535. The hosts come out in their order, with the default port for 0, and no limit is
-- left 0. Ports are any int64.
pub fill_iff :
    (env : Env) (c : Config)
    → All (λ h. h.remote_port < 2 ^ 64) c.hosts
    → (HasHome env → AllEnrollable [] c.hosts → (c' : Config) × (fill env c ≡ ok c'))
      × ((c' : Config)
          → fill env c ≡ ok c'
          → HasHome env
            × AllEnrollable [] c.hosts
            × (c'.hosts ≡ map ported c.hosts)
            × IsComplete c')
unfolding fill
fill_iff env c small = (
  λ (home, known) g.
      let (c', done) = fill_at_complete env home c small g in
      (c', fill_home env home c known ∙ done),
  λ c' e. elim (Option-cases env.home) [
    | inl unknown ↦ absurd (ground (arith, e, unknown))
    | inr (home, known) ↦
        let (g, same, complete) =
          fill_at_sound env home c c' small (sym (fill_home env home c known) ∙ e) in
        ((home, known), g, same, complete)
  ],
)

snoc-AllEnrollable :
    (seen : List Bytes) (hs : List Host) (h : Host)
    → IsEnrollable seen h
    → All (λ k. k.label ≢ h.label) hs
    → AllEnrollable seen hs
    → AllEnrollable seen (hs ++ h ∷ [])
snoc-AllEnrollable seen [] h g new gs = (g, tt)
snoc-AllEnrollable seen (k ∷ hs) h g (new, news) (here, gs) = (
  here,
  snoc-AllEnrollable (k.label ∷ seen) hs h
      (record { label = g.label; fresh = (new, g.fresh); dest = g.dest; port = g.port }) news gs,
)

last-IsEnrollable :
    (seen : List Bytes) (hs : List Host) (h : Host)
    → AllEnrollable seen (hs ++ h ∷ [])
    → (h.remote_port ≡ 0) ⊎ HasPort h.remote_port
last-IsEnrollable seen [] h (g, _) = g.port
last-IsEnrollable seen (k ∷ hs) h (_, gs) = last-IsEnrollable (k.label ∷ seen) hs h gs

not_enrolled :
    (hs : List Host) (l : Bytes)
    → any (λ k. bytes_eq k.label l) hs ≡ false
    → All (λ k. k.label ≢ l) hs
not_enrolled [] l e = tt
not_enrolled (k ∷ hs) l e = ground (arith, bytes_eq_iff k.label l, not_enrolled hs l)

record IsAdded (c c' : Config) (h : Host) : Type 0 where
  label : IsLabel h.label
  dest : valid_dest h.dest ≡ true
  new : All (λ k. k.label ≢ h.label) c.hosts
  hosts : c'.hosts ≡ c.hosts ++ h ∷ []

add_host-IsAdded : (c c' : Config) (h : Host) → add_host c h ≡ ok c' → IsAdded c c' h
unfolding add_host
add_host-IsAdded c c' h e = record {
  label = ground (arith, e, valid_label_iff h.label);
  dest = ground (arith, e);
  new = ground (arith, e, not_enrolled c.hosts h.label);
  hosts = ground (arith, e);
}

-- A host that `AddHost` accepts stands behind the others, and a configuration that `fill` would
-- accept stays one if the port of the new host is 0 or from 1 to 65535.
pub add_host-AllEnrollable :
    (c c' : Config) (h : Host)
    → AllEnrollable [] c.hosts
    → (h.remote_port ≡ 0) ⊎ HasPort h.remote_port
    → add_host c h ≡ ok c'
    → (c'.hosts ≡ c.hosts ++ h ∷ []) × AllEnrollable [] c'.hosts
add_host-AllEnrollable c c' h g port e =
    let a = add_host-IsAdded c c' h e in
    (
      a.hosts,
      rw a.hosts (
          snoc-AllEnrollable [] c.hosts h
            (record { label = a.label; fresh = tt; dest = a.dest; port = port }) a.new g),
    )

-- `AddHost` does not look at the port: what it returns for one that is not 0 and not from 1 to
-- 65535, `fill` refuses. Ports are any int64.
pub add_host_port :
    (env : Env) (c c' : Config) (h : Host)
    → All (λ h. h.remote_port < 2 ^ 64) c'.hosts
    → ¬ ((h.remote_port ≡ 0) ⊎ HasPort h.remote_port)
    → add_host c h ≡ ok c'
    → (e : Error) × (fill env c' ≡ err e)
add_host_port env c c' h small bad e = elim (Result-cases (fill env c')) [
  | inl refused ↦ refused
  | inr (c'', filled) ↦
      let g = ((fill_iff env c' small).1 c'' filled).1 in
      absurd (bad (last-IsEnrollable [] c.hosts h (rw (add_host-IsAdded c c' h e).hosts at g)))
]
