-- ===== src/Paths/Descend.antt =====
-- Names that never climb above the place where they start, described without Clean: `..` takes
-- back the last element, and there must be one.
use lopen.Base.{
  Bool, true, false, ◌||◌, List, [], ◌∷◌, ◌++◌, if◌then◌else◌, Bytes, bytes_eq, bytes_eq_iff, ◌≡◌,
  refl, ap, sym, ◌∙◌, All, arith, Bool-cases, inl, inr, Option, none, some, subst, has_prefix,
  if_intro,
}
use lopen.Paths.{slash, dot, dotdot, join_slash, step, walk}
use lopen.Paths.Elements.{IsPlain, Lacks, step_plain}

pub descend : List Bytes → List Bytes → Option (List Bytes)
descend ps [] = some ps
descend [] (w ∷ ws) =
    let stay = descend [] ws in
    let enter = descend (w ∷ []) ws in
    if bytes_eq w [] || bytes_eq w dot then stay else if bytes_eq w dotdot then none else enter
descend (p ∷ ps) (w ∷ ws) =
    let stay = descend (p ∷ ps) ws in
    let leave = descend ps ws in
    let enter = descend (w ∷ p ∷ ps) ws in
    if bytes_eq w [] || bytes_eq w dot then stay else if bytes_eq w dotdot then leave else enter

-- One element, as the code's stack takes it and as the description does.
data Move (w : Bytes) : Type 0 where
  stays :
      ((r : Bool) (st : List Bytes) → step r st w ≡ st)
      → ((ps ws : List Bytes) → descend ps (w ∷ ws) ≡ descend ps ws)
      → Move w
  leaves : w ≡ dotdot → Move w
  enters : IsPlain w → ((ps ws : List Bytes) → descend ps (w ∷ ws) ≡ descend (w ∷ ps) ws) → Move w

stay_step :
    (w : Bytes)
    → (bytes_eq w [] || bytes_eq w dot) ≡ true
    → (r : Bool) (st : List Bytes) → step r st w ≡ st
unfolding step
stay_step w e r st = rw e

stay_descend :
    (w : Bytes)
    → (bytes_eq w [] || bytes_eq w dot) ≡ true
    → (ps ws : List Bytes) → descend ps (w ∷ ws) ≡ descend ps ws
unfolding descend
stay_descend w e [] ws = rw e
stay_descend w e (p ∷ ps) ws = rw e

enter_descend :
    (w : Bytes)
    → (bytes_eq w [] || bytes_eq w dot) ≡ false
    → bytes_eq w dotdot ≡ false
    → (ps ws : List Bytes) → descend ps (w ∷ ws) ≡ descend (w ∷ ps) ws
unfolding descend
enter_descend w e d [] ws = rw (e, d)
enter_descend w e d (p ∷ ps) ws = rw (e, d)

move : (w : Bytes) → Lacks b'/' w → Move w
move w h = elim (Bool-cases (bytes_eq w [] || bytes_eq w dot)) [
  | inl e ↦ stays (stay_step w e) (stay_descend w e)
  | inr e ↦ elim (Bool-cases (bytes_eq w dotdot)) [
    | inl d ↦ leaves ((bytes_eq_iff w dotdot).0 d)
    | inr d ↦
        enters
          (record {
            not_empty = ground (arith, bytes_eq_iff w []);
            not_dot = ground (arith, bytes_eq_iff w dot);
            not_dotdot = ground (arith, bytes_eq_iff w dotdot);
            no_slash = h;
          })
          (enter_descend w e d)
  ]
]

leave_descend : (p : Bytes) (ps ws : List Bytes) → descend (p ∷ ps) (dotdot ∷ ws) ≡ descend ps ws
unfolding descend bytes_eq
leave_descend p ps ws = refl

none-ne-some : {ws : List Bytes} → none ≡ some ws → ⊥
none-ne-some e = cc

leave_nil : (ws : List Bytes) → descend [] (dotdot ∷ ws) ≡ none
unfolding descend bytes_eq
leave_nil ws = refl

-- Back over a plain element, whatever lies below it.
up_plain : (r : Bool) (p : Bytes) (st : List Bytes) → IsPlain p → step r (p ∷ st) dotdot ≡ st
unfolding step bytes_eq
up_plain true p st h = ground (arith, bytes_eq_iff p dotdot, h.not_dotdot)
up_plain false p st h = ground (arith, bytes_eq_iff p dotdot, h.not_dotdot)

abbrev Follows : Bool → List Bytes → List Bytes → List Bytes → List Bytes → Type 0
Follows r st ws ps qs =
    All IsPlain ps → descend ps ws ≡ some qs → (walk r (ps ++ st) ws ≡ qs ++ st) × All IsPlain qs

Follows-cons :
    (r : Bool) (st : List Bytes) (w : Bytes) (ws : List Bytes)
    → Move w
    → ((ps qs : List Bytes) → Follows r st ws ps qs)
    → (ps qs : List Bytes) → Follows r st (w ∷ ws) ps qs
unfolding walk
Follows-cons r st w ws (stays s d) ih ps qs plain e =
    rw (s r (ps ++ st)) (ih ps qs plain (sym (d ps ws) ∙ e))
Follows-cons r st w ws (leaves is) ih [] qs plain e =
    absurd (none-ne-some (sym (leave_nil ws) ∙ subst (λ v. descend [] (v ∷ ws) ≡ some qs) is e))
Follows-cons r st w ws (leaves is) ih (p ∷ ps) qs plain e =
    rw (is, up_plain r p (ps ++ st) plain.0)
      (ih ps qs plain.1
        (sym (leave_descend p ps ws) ∙ subst (λ v. descend (p ∷ ps) (v ∷ ws) ≡ some qs) is e))
Follows-cons r st w ws (enters good d) ih ps qs plain e =
    rw (step_plain r (ps ++ st) w good) (ih (w ∷ ps) qs (good, plain) (sym (d ps ws) ∙ e))

descend-nil : (ps : List Bytes) → descend ps [] ≡ some ps
unfolding descend
descend-nil [] = refl
descend-nil (p ∷ ps) = refl

some_eq : {a b : List Bytes} → some a ≡ some b → a ≡ b
some_eq e = cc

descend_walk :
    (r : Bool) (st ws : List Bytes)
    → All (Lacks b'/') ws
    → (ps qs : List Bytes) → Follows r st ws ps qs
unfolding walk
descend_walk r st [] h ps qs = λ plain e.
    let same : ps ≡ qs = some_eq (sym (descend-nil ps) ∙ e) in
    (ap (λ t. t ++ st) same, subst (All IsPlain) same plain)
descend_walk r st (w ∷ ws) (hw, hs) ps qs =
    Follows-cons r st w ws (move w hw) (descend_walk r st ws hs) ps qs

-- A name that stays below its start moves the same way on top of any stack, and ends in plain
-- elements.
pub walk-descend :
    (r : Bool) (st ws qs : List Bytes)
    → All (Lacks b'/') ws
    → descend [] ws ≡ some qs
    → (walk r st ws ≡ qs ++ st) × All IsPlain qs
walk-descend r st ws qs h = descend_walk r st ws h [] qs tt

-- Once a relative path has climbed above its start, `..` stays at the bottom of the stack.
abbrev Climbed : List Bytes → Type 0
Climbed st = (t : List Bytes) × (st ≡ t ++ dotdot ∷ [])

Climbed-step : (t : List Bytes) (w : Bytes) → Climbed (step false (t ++ dotdot ∷ []) w)
unfolding step bytes_eq
Climbed-step [] w =
    if_intro Climbed (bytes_eq w [] || bytes_eq w dot) (λ _. ([], refl))
      (λ _. if_intro Climbed (bytes_eq w dotdot) (λ _. (dotdot ∷ [], refl)) (λ _. (w ∷ [], refl)))
Climbed-step (p ∷ t) w =
    if_intro Climbed (bytes_eq w [] || bytes_eq w dot) (λ _. (p ∷ t, refl))
      (λ _.
        if_intro Climbed (bytes_eq w dotdot)
          (λ _. if_intro Climbed (bytes_eq p dotdot) (λ _. (dotdot ∷ p ∷ t, refl)) (λ _. (t, refl)))
          (λ _. (w ∷ p ∷ t, refl)))

Climbed-walk : (t ws : List Bytes) → Climbed (walk false (t ++ dotdot ∷ []) ws)
unfolding walk
Climbed-walk t [] = (t, refl)
Climbed-walk t (w ∷ ws) = let (t', e) = Climbed-step t w in rw e (Climbed-walk t' ws)

abbrev Fails : List Bytes → List Bytes → Type 0
Fails ws ps = descend ps ws ≡ none → All IsPlain ps → Climbed (walk false ps ws)

Fails-cons :
    (w : Bytes) (ws : List Bytes)
    → Move w
    → ((ps : List Bytes) → Fails ws ps)
    → (ps : List Bytes) → Fails (w ∷ ws) ps
unfolding walk
Fails-cons w ws (stays s d) ih ps = λ e plain. rw (s false ps) (ih ps (sym (d ps ws) ∙ e) plain)
Fails-cons w ws (leaves is) ih [] = λ e plain. rw is (unfold step bytes_eq in Climbed-walk [] ws)
Fails-cons w ws (leaves is) ih (p ∷ ps) = λ e plain.
    rw (is, up_plain false p ps plain.0)
      (ih ps (sym (leave_descend p ps ws) ∙ subst (λ v. descend (p ∷ ps) (v ∷ ws) ≡ none) is e)
        plain.1)
Fails-cons w ws (enters good d) ih ps =
    λ e plain. rw (step_plain false ps w good) (ih (w ∷ ps) (sym (d ps ws) ∙ e) (good, plain))

descend-Fails : (ws : List Bytes) → All (Lacks b'/') ws → (ps : List Bytes) → Fails ws ps
descend-Fails [] h ps = λ e plain. absurd (none-ne-some (sym e ∙ descend-nil ps))
descend-Fails (w ∷ ws) (hw, hs) ps = Fails-cons w ws (move w hw) (descend-Fails ws hs) ps

-- A name that climbs above its start leaves `..` at the bottom of the stack.
pub walk-climbs :
    (ws : List Bytes)
    → All (Lacks b'/') ws
    → descend [] ws ≡ none
    → (t : List Bytes) × (walk false [] ws ≡ t ++ dotdot ∷ [])
walk-climbs ws h e = descend-Fails ws h [] e tt

-- The test that SafeJoin makes of a cleaned name.
abbrev pub climbs : Bytes → Bool
climbs s = bytes_eq s dotdot || has_prefix s (dotdot ++ slash [])

climbs_alone : (w : Bytes) → IsPlain w → climbs w ≡ false
unfolding bytes_eq has_prefix
climbs_alone [] h = absurd (h.not_empty refl)
climbs_alone (a ∷ []) h = ground arith
climbs_alone (a ∷ b ∷ []) h = ground (arith, h.not_dotdot)
climbs_alone (a ∷ b ∷ c ∷ w) h = ground (arith, h.no_slash)

climbs_deeper : (w s : Bytes) → IsPlain w → climbs (w ++ slash s) ≡ false
unfolding bytes_eq has_prefix
climbs_deeper [] s h = absurd (h.not_empty refl)
climbs_deeper (a ∷ []) s h = ground arith
climbs_deeper (a ∷ b ∷ []) s h = ground (arith, h.not_dotdot)
climbs_deeper (a ∷ b ∷ c ∷ w) s h = ground (arith, h.no_slash)

-- The print of plain elements passes the code's test for a climb.
pub climbs_plain : (w : Bytes) (ws : List Bytes) → IsPlain w → climbs (join_slash (w ∷ ws)) ≡ false
unfolding join_slash
climbs_plain w [] h = climbs_alone w h
climbs_plain w (v ∷ ws) h = climbs_deeper w (join_slash (v ∷ ws)) h

-- The print of a stack with `..` at the bottom does not.
pub climbs-dotdot : (ws : List Bytes) → climbs (join_slash (dotdot ∷ ws)) ≡ true
unfolding join_slash bytes_eq has_prefix
climbs-dotdot [] = refl
climbs-dotdot (w ∷ ws) = refl
