-- ===== src/Mirror/Guard.antt =====
-- What CheckOverwrite refuses, and what it lets pass.
use lopen.Base.{
  Bool, true, false, none, some, [], ◌∷◌, ◌++◌, any, Bytes, bytes_eq, bytes_eq_iff, bytes_eq_refl,
  has_prefix, has_prefix_split, has_prefix-append, Map, lookup, NodupKeys, ◌≡◌, ◌↔◌, ◌⊎◌, inl, inr,
  refl, ap, sym, ◌∙◌, arith, append_assoc, Bool-cases,
}
use lopen.Os.{Os, Log}
use lopen.Paths.{slash}
use lopen.Index
use lopen.Index.{Entry, strictly_below, at_or_below, entries_where, descendants}
use lopen.Mirror.{Mirror, abs, check_overwrite}

-- k is the path, or a path below it.
abbrev pub InTree : Bytes → Bytes → Type 0
InTree path k = (k ≡ path) ⊎ ((s : Bytes) × (k ≡ path ++ slash s))

pub strictly_below_iff :
    (path k : Bytes) → (strictly_below path k ≡ true) ↔ ((s : Bytes) × (k ≡ path ++ slash s))
unfolding strictly_below
strictly_below_iff path k = (
  λ h.
      let (s, e) = has_prefix_split k (path ++ slash []) h in
      (s, e ∙ append_assoc path (slash []) s),
  λ (s, e).
      ap (λ t. has_prefix t (path ++ slash [])) (e ∙ sym (append_assoc path (slash []) s))
      ∙ has_prefix-append (path ++ slash []) s,
)

at_or_below_iff : (path k : Bytes) → (at_or_below path k ≡ true) ↔ InTree path k
unfolding at_or_below
at_or_below_iff path k = elim (Bool-cases (bytes_eq k path)) [
  | inl e ↦ (λ h. inl ((bytes_eq_iff k path).0 e), λ h. rw e)
  | inr e ↦ (
    λ h. inr ((strictly_below_iff path k).0 (ground (arith, h, e))),
    λ h. elim h [
      | inl same ↦ rw (same, bytes_eq_refl path)
      | inr below ↦ rw e ((strictly_below_iff path k).1 below)
    ],
  )
]

-- A test of the entries that a loop picks, against the map.
pub any-entries_where :
    (p : Bytes → Entry → Bool) (f : Entry → Bool) (m : Map Entry)
    → NodupKeys m
    → (any f (entries_where p m) ≡ false)
      ↔ ((k : Bytes) (e : Entry) → lookup k m ≡ some e → p k e ≡ true → f e ≡ false)
unfolding entries_where lookup
any-entries_where p f [] u = (λ h k e found. cc, λ h. refl)
any-entries_where p f ((j, w) ∷ m) (fresh, u) = (
  λ h k e. elim (Bool-cases (bytes_eq j k)) [
    | inl same ↦ rw same (λ found picked. elim (Bool-cases (f w)) [
      | inl bad ↦ absurd (ground (arith, h, found, picked, bad, (bytes_eq_iff j k).0 same))
      | inr fine ↦ ground (arith, found, fine)
    ])
    | inr other ↦
        rw other
          (λ found picked. ((any-entries_where p f m u).0 (ground (arith, h)) k e found picked))
  ],
  λ h.
      let here : p j w ≡ true → f w ≡ false = λ picked. h j w (rw (bytes_eq_refl j)) picked in
      let rest : any f (entries_where p m) ≡ false =
        (any-entries_where p f m u).1 (λ k e found picked.
          h k e
            (elim (Bool-cases (bytes_eq j k)) [
              | inl same ↦ ground (arith, (bytes_eq_iff j k).0 same, found, fresh)
              | inr other ↦ rw other found
            ])
            picked) in
      elim (Bool-cases (p j w)) [
        | inl picked ↦ rw (picked, here picked) rest
        | inr passed ↦ rw passed rest
      ],
)

-- The guard passes a slot exactly when the request forces it, or no entry at or below the slot was
-- modified. Each key stands once in the index.
pub check_overwrite_iff :
    (os : Os) (log : Log) (m : Mirror) (rel : Bytes) (force : Bool)
    → NodupKeys m.idx.entries
    → (check_overwrite os log m rel force ≡ none) ↔ (
        (force ≡ true)
        ⊎ ((k : Bytes) (e : Entry)
            → lookup k m.idx.entries ≡ some e
            → InTree rel k
            → Index.locally_modified os log e (abs m e.rel) ≡ false))
unfolding check_overwrite descendants
check_overwrite_iff os log m rel true u = (λ h. inl refl, λ h. refl)
check_overwrite_iff os log m rel false u =
    let p : Bytes → Entry → Bool = λ k e. at_or_below rel k in
    let f : Entry → Bool = λ e. Index.locally_modified os log e (abs m e.rel) in
    let all_fine = any-entries_where p f m.idx.entries u in
    (
      λ h. inr (λ k e found inside.
          all_fine.0
            (elim (Bool-cases (any f (entries_where p m.idx.entries))) [
              | inl bad ↦ absurd (ground (arith, h, bad))
              | inr fine ↦ fine
            ])
            k e found ((at_or_below_iff rel k).1 inside)),
      λ h. elim h [
        | inl forced ↦ cc
        | inr fine ↦
            rw (all_fine.1 (λ k e found inside. fine k e found ((at_or_below_iff rel k).0 inside)))
      ],
    )
