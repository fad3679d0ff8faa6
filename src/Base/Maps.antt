-- ===== src/Base/Maps.antt =====
-- Go maps with string keys as association lists. The order is the order in which a loop over the
-- map meets its entries, which Go leaves open: a theorem about any list is about any order.
use mathlib.Core.Path.{◌≡◌, refl}
use mathlib.Core.Logic.{inl, inr}
use mathlib.Core.Bool.{Bool, not}
use mathlib.Core.Option.{Option, none, some}
use mathlib.Core.List.{List, [], ◌∷◌}
use native.Mathlib.Omega.{arith}
use lopen.Base.Tests.{if◌then◌else◌, Bool-cases}
use lopen.Base.Text.{Bytes, bytes_eq, bytes_eq_iff, bytes_eq_refl}

abbrev pub Map {ℓ} : Type ℓ → Type ℓ
Map V = List (Bytes × V)

module _ {ℓ} {V : Type ℓ} where
  unfoldable pub lookup : Bytes → Map V → Option V
  lookup k [] = none
  lookup k ((j, v) ∷ m) = if bytes_eq j k then some v else lookup k m

  -- m[k] = v
  unfoldable pub insert : Bytes → V → Map V → Map V
  insert k v [] = (k, v) ∷ []
  insert k v ((j, w) ∷ m) = if bytes_eq j k then (j, v) ∷ m else (j, w) ∷ insert k v m

  -- delete(m, k) for each entry of a loop that fails the test
  unfoldable pub keep : (Bytes → V → Bool) → Map V → Map V
  keep p [] = []
  keep p ((j, w) ∷ m) = let rest = keep p m in if p j w then (j, w) ∷ rest else rest

  -- delete(m, k)
  unfoldable pub erase : Bytes → Map V → Map V
  erase k m = keep (λ j w. not (bytes_eq j k)) m

  pub lookup-insert :
      (k j : Bytes) (v : V) (m : Map V)
      → lookup j (insert k v m) ≡ (if bytes_eq k j then some v else lookup j m)
  unfolding lookup insert
  lookup-insert k j v [] = refl
  lookup-insert k j v ((i, w) ∷ m) =
      ground (arith, bytes_eq_iff k j, bytes_eq_iff i k, bytes_eq_iff i j, lookup-insert k j v m)

  lookup-keep_false :
      (p : Bytes → V → Bool) (j : Bytes) (m : Map V)
      → lookup j m ≡ none
      → lookup j (keep p m) ≡ none
  unfolding lookup keep
  lookup-keep_false p j [] h = refl
  lookup-keep_false p j ((i, w) ∷ m) h = ground (arith, lookup-keep_false p j m)

  -- A loop that keeps by the key alone.
  pub lookup-keep_key :
      (p : Bytes → Bool) (j : Bytes) (m : Map V)
      → lookup j (keep (λ k w. p k) m) ≡ (if p j then lookup j m else none)
  unfolding lookup keep
  lookup-keep_key p j [] = ground arith
  lookup-keep_key p j ((i, w) ∷ m) = elim (Bool-cases (bytes_eq i j)) [
    | inl e ↦ rw ((bytes_eq_iff i j).0 e) (ground (arith, bytes_eq_refl j, lookup-keep_key p j m))
    | inr e ↦ ground (arith, lookup-keep_key p j m)
  ]

  pub lookup-erase :
      (k j : Bytes) (m : Map V) → lookup j (erase k m) ≡ (if bytes_eq j k then none else lookup j m)
  unfolding erase
  lookup-erase k j m = ground (arith, lookup-keep_key (λ i. not (bytes_eq i k)) j m)

  -- Each key once.
  abbrev pub NodupKeys : Map V → Type ℓ
  NodupKeys [] = Unit
  NodupKeys ((k, v) ∷ m) = (lookup k m ≡ none) × NodupKeys m

  pub insert-NodupKeys : (k : Bytes) (v : V) (m : Map V) → NodupKeys m → NodupKeys (insert k v m)
  unfolding insert lookup
  insert-NodupKeys k v [] u = (refl, tt)
  insert-NodupKeys k v ((j, w) ∷ m) (fresh, u) = elim (Bool-cases (bytes_eq j k)) [
    | inl e ↦ rw e (fresh, u)
    | inr e ↦ rw e (
      ground (arith, lookup-insert k j v m, bytes_eq_iff k j, bytes_eq_iff j k),
      insert-NodupKeys k v m u,
    )
  ]

  pub keep-NodupKeys : (p : Bytes → V → Bool) (m : Map V) → NodupKeys m → NodupKeys (keep p m)
  unfolding keep
  keep-NodupKeys p [] u = u
  keep-NodupKeys p ((j, w) ∷ m) (fresh, u) = elim (Bool-cases (p j w)) [
    | inl e ↦ rw e (lookup-keep_false p j m fresh, keep-NodupKeys p m u)
    | inr e ↦ rw e (keep-NodupKeys p m u)
  ]

  -- Where each key stands once, a loop finds under a key what it holds.
  pub lookup-keep :
      (p : Bytes → V → Bool) (j : Bytes) (m : Map V)
      → NodupKeys m
      → lookup j (keep p m)
        ≡ (elim (lookup j m) [ none ↦ none | some v ↦ if p j v then some v else none ])
  unfolding lookup keep
  lookup-keep p j [] u = refl
  lookup-keep p j ((i, w) ∷ m) (fresh, u) = elim (Bool-cases (bytes_eq i j)) [
    | inl e ↦ ground (
      arith,
      (bytes_eq_iff i j).0 e,
      lookup-keep_false p j m,
      bytes_eq_refl j,
      lookup-keep p j m u,
    )
    | inr e ↦ ground (arith, lookup-keep p j m u)
  ]
