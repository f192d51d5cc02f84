-- ===== src/Scim/Alike.antt =====
-- Resources that differ in the order of the entries of their maps, and lists of their values.
use boardchestrator.Prelude.{
  ◌≡◌, refl, ◌∙◌, Bool, true, false, ◌||◌, List, [], ◌∷◌, ◌++◌, any, keep, Text, if◌then◌else◌,
}
use boardchestrator.Scim.Match.{
  Json, array, object, Jsons, no_more, element, Fields, no_fields, field, elements, no_values,
  values_of, concat_map,
}

-- The same values, with the entries of each map in another order, at any depth.
mutual
  pub data Same : Json → Json → Type 0 where
    unchanged : {v : Json} → Same v v
    arrays : {vs vs' : Jsons} → SameAll vs vs' → Same (array vs) (array vs')
    objects : {m m' : Fields} → Reordered m m' → Same (object m) (object m')

  pub data SameAll : Jsons → Jsons → Type 0 where
    none_same : SameAll no_more no_more
    each :
        {v v' : Json} {vs vs' : Jsons}
        → Same v v'
        → SameAll vs vs'
        → SameAll (element v vs) (element v' vs')

  pub data Reordered : Fields → Fields → Type 0 where
    empty : Reordered no_fields no_fields
    keeps :
        {k : Text} {v v' : Json} {m m' : Fields}
        → Same v v'
        → Reordered m m'
        → Reordered (field k v m) (field k v' m')
    swaps :
        {k k' : Text} {v v' : Json} {m : Fields}
        → Reordered (field k v (field k' v' m)) (field k' v' (field k v m))
    then_also : {m m' m'' : Fields} → Reordered m m' → Reordered m' m'' → Reordered m m''

-- The same values in any order.
pub data Alike : List Json → List Json → Type 0 where
  none_alike : Alike [] []
  skip : {v v' : Json} {vs vs' : List Json} → Same v v' → Alike vs vs' → Alike (v ∷ vs) (v' ∷ vs')
  exchange : {v v' : Json} {vs : List Json} → Alike (v ∷ v' ∷ vs) (v' ∷ v ∷ vs)
  after : {vs vs' vs'' : List Json} → Alike vs vs' → Alike vs' vs'' → Alike vs vs''

or-exchange : (b b' b'' : Bool) → (b || (b' || b'')) ≡ (b' || (b || b''))
or-exchange true true b'' = refl
or-exchange true false b'' = refl
or-exchange false b' b'' = refl

pub Alike-refl : (vs : List Json) → Alike vs vs
Alike-refl [] = none_alike
Alike-refl (v ∷ vs) = skip unchanged (Alike-refl vs)

Alike-append_left : (us vs vs' : List Json) → Alike vs vs' → Alike (us ++ vs) (us ++ vs')
Alike-append_left [] vs vs' h = h
Alike-append_left (u ∷ us) vs vs' h = skip unchanged (Alike-append_left us vs vs' h)

Alike-append_right : (us us' vs : List Json) → Alike us us' → Alike (us ++ vs) (us' ++ vs)
Alike-append_right _ _ vs none_alike = Alike-refl vs
Alike-append_right (u ∷ us) (u' ∷ us') vs (skip s k) = skip s (Alike-append_right us us' vs k)
Alike-append_right _ _ vs exchange = exchange
Alike-append_right us us'' vs (after {vs' = us'} k l) =
    after (Alike-append_right us us' vs k) (Alike-append_right us' us'' vs l)

Alike-append :
    (us us' vs vs' : List Json) → Alike us us' → Alike vs vs' → Alike (us ++ vs) (us' ++ vs')
Alike-append us us' vs vs' k h =
    after (Alike-append_right us us' vs k) (Alike-append_left us' vs vs' h)

Alike-into : (v : Json) (us vs : List Json) → Alike (v ∷ (us ++ vs)) (us ++ v ∷ vs)
Alike-into v [] vs = Alike-refl (v ∷ vs)
Alike-into v (u ∷ us) vs = after exchange (skip unchanged (Alike-into v us vs))

Alike-rotate : (us vs ws : List Json) → Alike (us ++ (vs ++ ws)) (vs ++ (us ++ ws))
Alike-rotate [] vs ws = Alike-refl (vs ++ ws)
Alike-rotate (u ∷ us) vs ws =
    after (skip unchanged (Alike-rotate us vs ws)) (Alike-into u vs (us ++ ws))

elements-Alike : (vs vs' : Jsons) → SameAll vs vs' → Alike (elements vs) (elements vs')
unfolding elements
elements-Alike _ _ none_same = none_alike
elements-Alike (element v vs) (element v' vs') (each s k) = skip s (elements-Alike vs vs' k)

pub values_of-Alike : (v v' : Json) → Same v v' → Alike (values_of v) (values_of v')
unfolding values_of
values_of-Alike v _ unchanged = Alike-refl (values_of v)
values_of-Alike (array vs) (array vs') (arrays s) = elements-Alike vs vs' s
values_of-Alike (object m) (object m') (objects s) = skip (objects s) none_alike

pub concat_map-Alike :
    (f : Json → List Json) (vs vs' : List Json)
    → ((v v' : Json) → Same v v' → Alike (f v) (f v'))
    → Alike vs vs'
    → Alike (concat_map f vs) (concat_map f vs')
unfolding concat_map
concat_map-Alike f _ _ h none_alike = none_alike
concat_map-Alike f (v ∷ vs) (v' ∷ vs') h (skip s k) =
    Alike-append (f v) (f v') (concat_map f vs) (concat_map f vs') (h v v' s)
      (concat_map-Alike f vs vs' h k)
concat_map-Alike f (v ∷ v' ∷ vs) _ h exchange = Alike-rotate (f v) (f v') (concat_map f vs)
concat_map-Alike f vs vs'' h (after {vs' = vs'} k l) =
    after (concat_map-Alike f vs vs' h k) (concat_map-Alike f vs' vs'' h l)

-- A Boolean test that does not see the order.
abbrev pub Respects : (Json → Bool) → Type 0
Respects p = (v v' : Json) → Same v v' → p v ≡ p v'

pub any-Alike :
    (p : Json → Bool) (vs vs' : List Json) → Respects p → Alike vs vs' → any p vs ≡ any p vs'
any-Alike p _ _ h none_alike = refl
any-Alike p (v ∷ vs) (v' ∷ vs') h (skip s k) = rw (h v v' s, any-Alike p vs vs' h k) refl
any-Alike p (v ∷ v' ∷ vs) _ h exchange = or-exchange (p v) (p v') (any p vs)
any-Alike p vs vs'' h (after {vs' = vs'} k l) = any-Alike p vs vs' h k ∙ any-Alike p vs' vs'' h l

skip_if :
    (b : Bool) (v v' : Json) (vs vs' : List Json)
    → Same v v'
    → Alike vs vs'
    → Alike (if b then v ∷ vs else vs) (if b then v' ∷ vs' else vs')
skip_if true v v' vs vs' s k = skip s k
skip_if false v v' vs vs' s k = k

exchange_if :
    (b b' : Bool) (v v' : Json) (vs : List Json)
    → Alike
        (if b then v ∷ (if b' then v' ∷ vs else vs) else if b' then v' ∷ vs else vs)
        (if b' then v' ∷ (if b then v ∷ vs else vs) else if b then v ∷ vs else vs)
exchange_if true true v v' vs = exchange
exchange_if true false v v' vs = Alike-refl (v ∷ vs)
exchange_if false true v v' vs = Alike-refl (v' ∷ vs)
exchange_if false false v v' vs = Alike-refl vs

pub keep-Alike :
    (p : Json → Bool) (vs vs' : List Json)
    → Respects p
    → Alike vs vs'
    → Alike (keep p vs) (keep p vs')
keep-Alike p _ _ h none_alike = none_alike
keep-Alike p (v ∷ vs) (v' ∷ vs') h (skip s k) =
    rw (h v v' s) (skip_if (p v') v v' (keep p vs) (keep p vs') s (keep-Alike p vs vs' h k))
keep-Alike p (v ∷ v' ∷ vs) _ h exchange = exchange_if (p v) (p v') v v' (keep p vs)
keep-Alike p vs vs'' h (after {vs' = vs'} k l) =
    after (keep-Alike p vs vs' h k) (keep-Alike p vs' vs'' h l)

pub no_values-Alike : (vs vs' : List Json) → Alike vs vs' → no_values vs ≡ no_values vs'
no_values-Alike _ _ none_alike = refl
no_values-Alike _ _ (skip s k) = refl
no_values-Alike _ _ exchange = refl
no_values-Alike vs vs'' (after {vs' = vs'} k l) =
    no_values-Alike vs vs' k ∙ no_values-Alike vs' vs'' l

pub append_if :
    (b : Bool) (us us' vs vs' : List Json)
    → Alike us us'
    → Alike vs vs'
    → Alike (if b then us ++ vs else vs) (if b then us' ++ vs' else vs')
append_if true us us' vs vs' h k = Alike-append us us' vs vs' h k
append_if false us us' vs vs' h k = k

pub rotate_if :
    (b b' : Bool) (us vs ws : List Json)
    → Alike
        (if b then us ++ (if b' then vs ++ ws else ws) else if b' then vs ++ ws else ws)
        (if b' then vs ++ (if b then us ++ ws else ws) else if b then us ++ ws else ws)
rotate_if true true us vs ws = Alike-rotate us vs ws
rotate_if true false us vs ws = Alike-refl (us ++ ws)
rotate_if false true us vs ws = Alike-refl (vs ++ ws)
rotate_if false false us vs ws = Alike-refl ws
