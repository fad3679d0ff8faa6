-- ===== src/Index/Deleting.antt =====
-- What the deleting loops of internal/index/index.go leave in the map.
use lopen.Base.{
  Bool, not, Option, none, some, List, [], ◌∷◌, if◌then◌else◌, Bytes, bytes_eq, bytes_eq_iff, Map,
  lookup, keep, lookup-keep, NodupKeys, keep-NodupKeys, ◌≡◌, refl, ◌∙◌, arith, Bool-cases, inl, inr,
}
use lopen.Io.{Codec}
use lopen.Os.{Os, Log}
use lopen.Index.{Entry, Index, Saved, entries_where, delete_where, saved, same}

-- What is left under a key by a loop that deletes.
abbrev pub without : (Bytes → Entry → Bool) → Bytes → Option Entry → Option Entry
without p k none = none
without p k (some e) = if p k e then none else some e

kept-without :
    (p : Bytes → Entry → Bool) (j : Bytes) (o : Option Entry)
    → (elim o as (λ _. Option Entry) [
      | none ↦ none
      | some v ↦ if not (p j v) then some v else none
    ])
      ≡ without p j o
kept-without p j none = refl
kept-without p j (some v) = ground arith

-- Where no entry passes the test, none goes.
none-picked :
    (p : Bytes → Entry → Bool) (m : Map Entry)
    → entries_where p m ≡ []
    → (j : Bytes) → lookup j m ≡ without p j (lookup j m)
unfolding entries_where lookup
none-picked p [] eq j = refl
none-picked p ((k, e) ∷ m) eq j = elim (Bool-cases (p k e)) [
  | inl picked ↦ absurd (ground arith)
  | inr passed ↦ elim (Bool-cases (bytes_eq k j)) [
    | inl here ↦ ground (arith, (bytes_eq_iff k j).0 here)
    | inr there ↦ ground (arith, none-picked p m (ground arith) j)
  ]
]

module _ (json : Codec (Map Entry)) (os : Os) where
  pub delete_where-lookup :
      (log : Log) (ix : Index) (p : Bytes → Entry → Bool)
      → NodupKeys ix.entries
      → NodupKeys (delete_where json os log ix p).index.entries
        × ((j : Bytes)
            → lookup j (delete_where json os log ix p).index.entries
              ≡ without p j (lookup j ix.entries))
  unfolding delete_where saved same
  delete_where-lookup log ix p u = go (entries_where p ix.entries) refl
    where
      go :
          (found : List Entry)
          → entries_where p ix.entries ≡ found
          → NodupKeys
              (elim found as (λ _. Saved) [
                | [] ↦ same log ix
                | e ∷ es ↦ saved json os log ix (keep (λ rel e. not (p rel e)) ix.entries)
              ]).index.entries
            × ((j : Bytes)
                → lookup j
                    (elim found as (λ _. Saved) [
                      | [] ↦ same log ix
                      | e ∷ es ↦ saved json os log ix (keep (λ rel e. not (p rel e)) ix.entries)
                    ]).index.entries
                  ≡ without p j (lookup j ix.entries))
      go [] eq = (u, λ j. none-picked p ix.entries eq j)
      go (e ∷ es) eq = (
        keep-NodupKeys (λ rel e. not (p rel e)) ix.entries u,
        λ j.
            lookup-keep (λ rel e. not (p rel e)) j ix.entries u
            ∙ kept-without p j (lookup j ix.entries),
      )
