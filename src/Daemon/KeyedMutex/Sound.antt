-- ===== src/Daemon/KeyedMutex/Sound.antt =====
-- The invariant of the locks: the map and the counts agree with the callers.
use lopen.Base.{
  ℕ, ◌+◌, ◌≤◌, ◌<◌, Bool, true, false, ◌&&◌, some, List, [], ◌∷◌, ◌++◌, ◌==◌, if◌then◌else◌, Bytes,
  lookup, All, ◌≡◌, refl, arith,
}
use lopen.Daemon.KeyedMutex.{Phase, holding, Caller, State, initial}

abbrev pub is_holding : Phase → Bool
is_holding holding = true
is_holding _ = false

-- How many callers have the refMutex at rm, and how many of them hold it.
abbrev pub users : ℕ → List Caller → ℕ
users rm [] = 0
users rm (c ∷ cs) = (if c.rm == rm then 1 else 0) + users rm cs

abbrev pub holders : ℕ → List Caller → ℕ
holders rm [] = 0
holders rm (c ∷ cs) = (if c.rm == rm && is_holding c.phase then 1 else 0) + holders rm cs

pub users-append : (rm : ℕ) (a b : List Caller) → users rm (a ++ b) ≡ users rm a + users rm b
users-append rm [] b = omega arith
users-append rm (c ∷ a) b = omega (arith, users-append rm a b)

pub holders-append :
    (rm : ℕ) (a b : List Caller) → holders rm (a ++ b) ≡ holders rm a + holders rm b
holders-append rm [] b = omega arith
holders-append rm (c ∷ a) b = omega (arith, holders-append rm a b)

pub holders_le : (rm : ℕ) (cs : List Caller) → holders rm cs ≤ users rm cs
holders_le rm [] = omega arith
holders_le rm (c ∷ cs) = ground (arith, holders_le rm cs)

pub All-middle :
    (P : Caller → Type 0) (a b : List Caller) (c : Caller)
    → All P (a ++ c ∷ b)
    → P c × ((d : Caller) → P d → All P (a ++ d ∷ b)) × All P (a ++ b)
All-middle P [] b c (h, hs) = (h, λ d k. (k, hs), hs)
All-middle P (x ∷ a) b c (h, hs) =
    let (here, swap, drop) = All-middle P a b c hs in (here, λ d k. (h, swap d k), (h, drop))

pub no_users : (n : ℕ) (cs : List Caller) → All (λ c. c.rm < n) cs → users n cs ≡ 0
no_users n [] h = refl
no_users n (c ∷ cs) (h, hs) = ground (arith, no_users n cs hs)

pub record IsSound (s : State) : Type 0 where
  pub found : All (λ c. lookup c.key s.mutex.locks ≡ some c.rm) s.callers
  pub old : (k : Bytes) (rm : ℕ) → lookup k s.mutex.locks ≡ some rm → rm < s.mutex.next
  pub one_key :
      (j k : Bytes) (rm : ℕ)
      → lookup j s.mutex.locks ≡ some rm
      → lookup k s.mutex.locks ≡ some rm
      → j ≡ k
  pub counted : (rm : ℕ) → s.mutex.refs rm ≡ users rm s.callers
  pub held : (rm : ℕ) → holders rm s.callers ≡ (if s.mutex.locked rm then 1 else 0)
  pub used : (k : Bytes) (rm : ℕ) → lookup k s.mutex.locks ≡ some rm → 0 < s.mutex.refs rm

pub initial-IsSound : IsSound initial
unfolding lookup
initial-IsSound = record {
  found = tt;
  old = λ k rm e. cc;
  one_key = λ j k rm e f. cc;
  counted = λ rm. refl;
  held = λ rm. refl;
  used = λ k rm e. cc;
}
