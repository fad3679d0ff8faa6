-- ===== src/Index/Order.antt =====
-- The candidates of a garbage collection: all entries, the least recently used first.
use mathlib.Core.List.{Permᴰ}
use lopen.Base.{
  ◌≤◌, true, List, [], ◌∷◌, Map, All, ltb, ◌≡◌, refl, ap, subst, arith, Bool-cases, inl, inr,
}
use lopen.Index.{Entry, Index, insert_by_use, sort_by_use, entries_where, candidates}

-- Each entry was last used no later than those behind it.
abbrev pub IsSorted : List Entry → Type 0
IsSorted [] = Unit
IsSorted (e ∷ es) = All (λ f. e.last_used ≤ f.last_used) es × IsSorted es

insert_by_use-All :
    (P : Entry → Type 0) (e : Entry) (es : List Entry) → P e → All P es → All P (insert_by_use e es)
unfolding insert_by_use
insert_by_use-All P e [] p h = (p, tt)
insert_by_use-All P e (f ∷ fs) p (h, hs) = elim (Bool-cases (ltb f.last_used e.last_used)) [
  | inl later ↦ rw later (h, insert_by_use-All P e fs p hs)
  | inr first ↦ rw first (p, (h, hs))
]

All-after :
    (e f : Entry) (fs : List Entry)
    → e.last_used ≤ f.last_used
    → All (λ g. f.last_used ≤ g.last_used) fs
    → All (λ g. e.last_used ≤ g.last_used) fs
All-after e f [] le h = tt
All-after e f (g ∷ fs) le (h, hs) = (omega (arith, le, h), All-after e f fs le hs)

insert_by_use-IsSorted : (e : Entry) (es : List Entry) → IsSorted es → IsSorted (insert_by_use e es)
unfolding insert_by_use
insert_by_use-IsSorted e [] h = (tt, tt)
insert_by_use-IsSorted e (f ∷ fs) (h, hs) = elim (Bool-cases (ltb f.last_used e.last_used)) [
  | inl later ↦ rw later (
    insert_by_use-All (λ g. f.last_used ≤ g.last_used) e fs (ground (arith, later)) h,
    insert_by_use-IsSorted e fs hs,
  )
  | inr first ↦
      let le : e.last_used ≤ f.last_used = ground (arith, first) in
      rw first ((le, All-after e f fs le h), (h, hs))
]

sort_by_use-IsSorted : (es : List Entry) → IsSorted (sort_by_use es)
unfolding sort_by_use
sort_by_use-IsSorted [] = tt
sort_by_use-IsSorted (e ∷ es) = insert_by_use-IsSorted e (sort_by_use es) (sort_by_use-IsSorted es)

Perm_refl : (es : List Entry) → Permᴰ es es
Perm_refl [] = Permᴰ.nil
Perm_refl (e ∷ es) = Permᴰ.cons refl (Perm_refl es)

insert_by_use-Perm : (e : Entry) (es : List Entry) → Permᴰ (insert_by_use e es) (e ∷ es)
unfolding insert_by_use
insert_by_use-Perm e [] = Perm_refl (e ∷ [])
insert_by_use-Perm e (f ∷ fs) = elim (Bool-cases (ltb f.last_used e.last_used)) [
  | inl later ↦
      rw later (Permᴰ.trans (Permᴰ.cons refl (insert_by_use-Perm e fs)) (Permᴰ.swap refl refl))
  | inr first ↦ rw first (Perm_refl (e ∷ f ∷ fs))
]

sort_by_use-Perm : (es : List Entry) → Permᴰ (sort_by_use es) es
unfolding sort_by_use
sort_by_use-Perm [] = Permᴰ.nil
sort_by_use-Perm (e ∷ es) =
    Permᴰ.trans (insert_by_use-Perm e (sort_by_use es)) (Permᴰ.cons refl (sort_by_use-Perm es))

abbrev pub values : Map Entry → List Entry
values [] = []
values ((k, e) ∷ m) = e ∷ values m

entries_where_all : (m : Map Entry) → entries_where (λ k e. true) m ≡ values m
unfolding entries_where
entries_where_all [] = refl
entries_where_all ((k, e) ∷ m) = ap (λ es. e ∷ es) (entries_where_all m)

-- The candidates are the entries of the index, each as often as it stands there, with the least
-- recently used first.
pub candidates-IsSorted :
    (ix : Index) → IsSorted (candidates ix) × Permᴰ (candidates ix) (values ix.entries)
unfolding candidates
candidates-IsSorted ix = (
  sort_by_use-IsSorted (entries_where (λ k e. true) ix.entries),
  subst (Permᴰ (sort_by_use (entries_where (λ k e. true) ix.entries)))
      (entries_where_all ix.entries) (sort_by_use-Perm (entries_where (λ k e. true) ix.entries)),
)
