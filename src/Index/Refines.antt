-- ===== src/Index/Refines.antt =====
-- The index against its abstract view, over any sequence of calls.
use mathlib.Core.List.{Memᴰ}
use lopen.Base.{
  ℕ, Bool, true, false, ◌&&◌, Option, none, some, List, [], ◌∷◌, ◌≡◌, refl, ◌↔◌, inl, inr, ap, ◌∙◌,
  sym, if◌then◌else◌, Bytes, bytes_eq, bytes_eq_iff, Map, lookup, insert, NodupKeys, lookup-insert,
  insert-NodupKeys, keep-NodupKeys, Bool-cases, arith, bytes_eq_refl, lookup-erase, erase,
}
use lopen.Io.{Codec}
use lopen.Os.{Os, Log}
use lopen.Index.{
  Entry, Index, Saved, saved, same, record_sync, touch, get, delete, delete_descendants_of,
  delete_ancestor_dirs_of, descendants, entries_where, strictly_below, at_or_below,
}
use lopen.Index.Deleting.{without, delete_where-lookup}
use lopen.Index.Abstract.{
  Operation, record_slot, touch_slot, delete_slot, delete_below, delete_dirs_above, perform,
  perform_all, View, change, Becomes, stays, changes,
}

-- The index holds each slot once, and under each what the view says.
pub record Represents (ix : Index) (v : View) : Type 0 where
  pub once : NodupKeys ix.entries
  pub holds : (k : Bytes) → lookup k ix.entries ≡ v k

-- What the questions to the index answer, told by the view.
pub record Answers (ix : Index) (v : View) : Type 0 where
  pub gets : (k : Bytes) → get ix k ≡ v k
  pub lists :
      (prefix : Bytes) (e : Entry)
      → Memᴰ e (descendants ix prefix)
        ↔ ((k : Bytes) × (at_or_below prefix k ≡ true) × (v k ≡ some e))

-- What Touch does, by what the slot holds.
module _ (json : Codec (Map Entry)) (os : Os) (log : Log) (ix : Index) (rel : Bytes)
    (u : NodupKeys ix.entries) where
  abbrev Touches : Saved → Type 0
  Touches s =
      NodupKeys s.index.entries
      × ((k : Bytes)
          → lookup k s.index.entries ≡ change (os.now log) (touch_slot rel) k (lookup k ix.entries))

  touch-Touches : Touches (touch json os log ix rel)
  unfolding touch saved same
  touch-Touches = go (lookup rel ix.entries) refl
    where
      go :
          (held : Option Entry)
          → lookup rel ix.entries ≡ held
          → Touches (elim held as (λ _. Saved) [
            | none ↦ same log ix
            | some e ↦
                saved json os log ix (insert rel (record e { last_used = os.now log }) ix.entries)
          ])
      go none gone = (u, λ k. ground (arith, bytes_eq_iff rel k, gone))
      go (some e) found = (
        insert-NodupKeys rel _ ix.entries u,
        λ k.
            lookup-insert rel k (record e { last_used = os.now log }) ix.entries
            ∙ ground (arith, bytes_eq_iff rel k, found),
      )

bytes_eq_sym : (a b : Bytes) → bytes_eq a b ≡ bytes_eq b a
bytes_eq_sym a b = ground (arith, bytes_eq_iff a b, bytes_eq_iff b a)

without_key :
    (p : Bytes → Bool) (k : Bytes) (held : Option Entry)
    → without (λ k e. p k) k held ≡ (if p k then none else held)
without_key p k none = ground arith
without_key p k (some e) = refl

without_dirs :
    (now : ℕ) (rel k : Bytes) (held : Option Entry)
    → without (λ k e. e.dir && strictly_below k rel) k held
      ≡ change now (delete_dirs_above rel) k held
without_dirs now rel k none = refl
without_dirs now rel k (some e) = refl

-- One call changes what each slot holds the way the view changes.
perform-lookup :
    (json : Codec (Map Entry)) (os : Os) (log : Log) (ix : Index) (op : Operation)
    → NodupKeys ix.entries
    → NodupKeys (perform json os log ix op).index.entries
      × ((k : Bytes)
          → lookup k (perform json os log ix op).index.entries
            ≡ change (os.now log) op k (lookup k ix.entries))
unfolding perform record_sync saved delete erase delete_descendants_of delete_ancestor_dirs_of
perform-lookup json os log ix (record_slot rel dir size sync_mod) u =
    (insert-NodupKeys rel _ ix.entries u, λ k. lookup-insert rel k _ ix.entries)
perform-lookup json os log ix (touch_slot rel) u = touch-Touches json os log ix rel u
perform-lookup json os log ix (delete_slot rel) u = (
  keep-NodupKeys _ ix.entries u,
  λ k. lookup-erase rel k ix.entries ∙ rw (bytes_eq_sym k rel) refl,
)
perform-lookup json os log ix (delete_below rel) u =
    let (u', left) = delete_where-lookup json os log ix (λ k e. strictly_below rel k) u in
    (u', λ k. left k ∙ without_key (λ j. strictly_below rel j) k (lookup k ix.entries))
perform-lookup json os log ix (delete_dirs_above rel) u =
    let (u', left) = delete_where-lookup json os log ix (λ k e. e.dir && strictly_below k rel) u in
    (u', λ k. left k ∙ without_dirs (os.now log) rel k (lookup k ix.entries))

perform_all-Becomes :
    (json : Codec (Map Entry)) (os : Os) (log : Log) (ix : Index) (v : View) (ops : List Operation)
    → Represents ix v
    → (w : View) × Becomes os ops v w × Represents (perform_all json os log ix ops).index w
unfolding perform_all same
perform_all-Becomes json os log ix v [] r = (v, stays, r)
perform_all-Becomes json os log ix v (op ∷ ops) r =
    let s = perform json os log ix op in
    let (u, at) = perform-lookup json os log ix op r.once in
    let (w, b, r') =
      perform_all-Becomes json os s.log s.index (λ k. change (os.now log) op k (v k)) ops
        (record { once = u; holds = λ k. at k ∙ ap (change (os.now log) op k) (r.holds k) }) in
    (w, changes log b, r')

abbrev IsHeldBy : (Bytes → Bool) → Map Entry → Entry → Type 0
IsHeldBy p m e = (k : Bytes) × (p k ≡ true) × (lookup k m ≡ some e)

IsHeldBy-behind :
    (p : Bytes → Bool) (j : Bytes) (f : Entry) (m : Map Entry) (e : Entry)
    → lookup j m ≡ none
    → IsHeldBy p m e
    → IsHeldBy p ((j, f) ∷ m) e
unfolding lookup
IsHeldBy-behind p j f m e fresh (k, picked, found) =
    (k, picked, ground (arith, (bytes_eq_iff j k).0))

listed-IsHeldBy :
    (p : Bytes → Bool) (m : Map Entry) (e : Entry)
    → NodupKeys m
    → Memᴰ e (entries_where (λ k e. p k) m)
    → IsHeldBy p m e
unfolding entries_where lookup
listed-IsHeldBy p [] e u h = elim h [ ]
listed-IsHeldBy p ((j, f) ∷ m) e (fresh, u) h = go (λ t. listed-IsHeldBy p m e u t) (p j) refl h
  where
    go :
        (Memᴰ e (entries_where (λ k e. p k) m) → IsHeldBy p m e)
        → (picked : Bool) → p j ≡ picked
        → Memᴰ e (if picked then f ∷ entries_where (λ k e. p k) m else entries_where (λ k e. p k) m)
        → IsHeldBy p ((j, f) ∷ m) e
    go further true eq (Memᴰ.head same_entry) = (j, eq, ground (arith, bytes_eq_refl j, same_entry))
    go further true eq (Memᴰ.tail t) = IsHeldBy-behind p j f m e fresh (further t)
    go further false eq t = IsHeldBy-behind p j f m e fresh (further t)

held_listed :
    (p : Bytes → Bool) (m : Map Entry) (e : Entry) (k : Bytes)
    → p k ≡ true
    → lookup k m ≡ some e
    → Memᴰ e (entries_where (λ k e. p k) m)
unfolding entries_where lookup
held_listed p [] e k picked found = absurd (ground arith)
held_listed p ((j, f) ∷ m) e k picked found = elim (Bool-cases (bytes_eq j k)) [
  | inl here ↦ rw ((bytes_eq_iff j k).0 here, picked) (Memᴰ.head (ground (arith, here)))
  | inr there ↦ elim (Bool-cases (p j)) [
    | inl yes_j ↦ rw yes_j (Memᴰ.tail (held_listed p m e k picked (ground arith)))
    | inr no_j ↦ rw no_j (held_listed p m e k picked (ground arith))
  ]
]

-- From an index that holds each slot once, any sequence of Record, Touch, Delete,
-- DeleteDescendantsOf and DeleteAncestorDirsOf, whatever is saved and whatever the saving answers,
-- gives an index that represents what the abstract operations, each at a time that the clock tells,
-- make of the abstract map of the first: each slot is held once, Get tells what the map holds for
-- any slot, and Descendants lists what it holds at or below any prefix and nothing else.
pub perform_all-refines :
    (json : Codec (Map Entry)) (os : Os) (log : Log) (ix : Index) (ops : List Operation)
    → NodupKeys ix.entries
    → (let s = perform_all json os log ix ops in
        (w : View) × Becomes os ops (get ix) w × NodupKeys s.index.entries × Answers s.index w)
unfolding get descendants
perform_all-refines json os log ix ops u =
    let (w, b, r) =
      perform_all-Becomes json os log ix (get ix) ops (record { once = u; holds = λ k. refl }) in
    (
      w,
      b,
      r.once,
      record {
        gets = r.holds;
        lists = λ prefix e. (
          λ h.
              let (k, below, found) =
                listed-IsHeldBy (at_or_below prefix) (perform_all json os log ix ops).index.entries
                  e r.once h in
              (k, below, sym (r.holds k) ∙ found),
          λ (k, below, found).
              held_listed (at_or_below prefix) (perform_all json os log ix ops).index.entries e k
                below (r.holds k ∙ found),
        );
      },
    )
