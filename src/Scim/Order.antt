-- ===== src/Scim/Order.antt =====
-- Go ranges over a map in any order: the answer of a filter does not depend on it.
use boardchestrator.Prelude.{◌≡◌, refl, ap, ◌∙◌, Bool, true, false, not, List, [], ◌∷◌, keep, Text}
use boardchestrator.Scim.Syntax.{
  Value, null, bool, number, string, Test, bare, pr, eq, Filter, end, and, Cond, group, attr, Sub,
  no_sub, sub,
}
use boardchestrator.Scim.Match.{
  Json, array, object, no_more, element, Fields, no_fields, field, Compare, is_case_exact, present,
  values_of, concat_map, matching, equal, fields_at, step_into, lookup, holds, sub_holds,
  filter_match, cond_match, sub_match,
}
use boardchestrator.Scim.Alike.{
  Same, unchanged, arrays, objects, Reordered, empty, keeps, swaps, then_also, Alike, none_alike,
  skip, after, Respects, Alike-refl, values_of-Alike, concat_map-Alike, any-Alike, keep-Alike,
  no_values-Alike, append_if, rotate_if,
}

abbrev has_no_fields : Fields → Bool
has_no_fields no_fields = true
has_no_fields (field k v m) = false

has_no_fields-Reordered : (m m' : Fields) → Reordered m m' → has_no_fields m ≡ has_no_fields m'
has_no_fields-Reordered _ _ empty = refl
has_no_fields-Reordered _ _ (keeps s h) = refl
has_no_fields-Reordered _ _ swaps = refl
has_no_fields-Reordered m m'' (then_also {m' = m'} h l) =
    has_no_fields-Reordered m m' h ∙ has_no_fields-Reordered m' m'' l

object-present : (m m' : Fields) → Reordered m m' → present (object m) ≡ present (object m')
unfolding present
object-present no_fields no_fields h = refl
object-present (field k v m) (field k' v' m') h = refl
object-present no_fields (field k' v' m') h = cc (has_no_fields-Reordered _ _ h)
object-present (field k v m) no_fields h = cc (has_no_fields-Reordered _ _ h)

Respects-present : Respects present
unfolding present
Respects-present v _ unchanged = refl
Respects-present (array no_more) (array no_more) (arrays s) = refl
Respects-present (array (element v vs)) (array (element v' vs')) (arrays s) = refl
Respects-present (array no_more) (array (element v' vs')) (arrays s) = elim s [ ]
Respects-present (array (element v vs)) (array no_more) (arrays s) = elim s [ ]
Respects-present (object m) (object m') (objects s) = object-present m m' s

Respects-matching :
    (p : Fields → Bool) → ((m m' : Fields) → Reordered m m' → p m ≡ p m') → Respects (matching p)
unfolding matching
Respects-matching p h v _ unchanged = refl
Respects-matching p h (array vs) (array vs') (arrays s) = refl
Respects-matching p h (object m) (object m') (objects s) = h m m' s

module _ (compare : Compare) where
  Respects-equal : (exact : Bool) (want : Value) → Respects (λ v. equal compare exact v want)
  unfolding equal
  Respects-equal exact want v _ unchanged = refl
  Respects-equal exact null (array vs) (array vs') (arrays s) = refl
  Respects-equal exact (bool b) (array vs) (array vs') (arrays s) = refl
  Respects-equal exact (number n) (array vs) (array vs') (arrays s) = refl
  Respects-equal exact (string t) (array vs) (array vs') (arrays s) = refl
  Respects-equal exact null (object m) (object m') (objects s) = refl
  Respects-equal exact (bool b) (object m) (object m') (objects s) = refl
  Respects-equal exact (number n) (object m) (object m') (objects s) = refl
  Respects-equal exact (string t) (object m) (object m') (objects s) = refl

  fields_at-Alike :
      (key : Text) (m m' : Fields)
      → Reordered m m'
      → Alike (fields_at compare key m) (fields_at compare key m')
  unfolding fields_at
  fields_at-Alike key _ _ empty = none_alike
  fields_at-Alike key (field k v m) (field _ v' m') (keeps s h) =
      append_if (compare.equal_fold k key) (values_of v) (values_of v') _ _ (values_of-Alike v v' s)
        (fields_at-Alike key m m' h)
  fields_at-Alike key (field k v (field k' v' m)) _ swaps =
      rotate_if (compare.equal_fold k key) (compare.equal_fold k' key) (values_of v) (values_of v')
        (fields_at compare key m)
  fields_at-Alike key m m'' (then_also {m' = m'} h l) =
      after (fields_at-Alike key m m' h) (fields_at-Alike key m' m'' l)

  step_into-Alike :
      (key : Text) (v v' : Json)
      → Same v v'
      → Alike (step_into compare key v) (step_into compare key v')
  unfolding step_into
  step_into-Alike key v _ unchanged = Alike-refl (step_into compare key v)
  step_into-Alike key (array vs) (array vs') (arrays s) = none_alike
  step_into-Alike key (object m) (object m') (objects s) = fields_at-Alike key m m' s

  lookup-Alike :
      (path : List Text) (vs vs' : List Json)
      → Alike vs vs'
      → Alike (lookup compare vs path) (lookup compare vs' path)
  unfolding lookup
  lookup-Alike [] vs vs' h = h
  lookup-Alike (key ∷ path) vs vs' h =
      lookup-Alike path (concat_map (step_into compare key) vs)
        (concat_map (step_into compare key) vs')
        (concat_map-Alike (step_into compare key) vs vs' (step_into-Alike key) h)

  holds-Alike :
      (exact : Bool) (test : Test) (vs vs' : List Json)
      → Alike vs vs'
      → holds compare exact test vs ≡ holds compare exact test vs'
  unfolding holds
  holds-Alike exact bare vs vs' h = refl
  holds-Alike exact pr vs vs' h = any-Alike present vs vs' Respects-present h
  holds-Alike exact (eq null) vs vs' h =
      rw
        (
          any-Alike (λ v. equal compare exact v null) vs vs' (Respects-equal exact null) h,
          no_values-Alike vs vs' h,
        )
        refl
  holds-Alike exact (eq (bool b)) vs vs' h = any-Alike _ vs vs' (Respects-equal exact (bool b)) h
  holds-Alike exact (eq (number n)) vs vs' h =
      any-Alike _ vs vs' (Respects-equal exact (number n)) h
  holds-Alike exact (eq (string t)) vs vs' h =
      any-Alike _ vs vs' (Respects-equal exact (string t)) h

  sub_holds-Alike :
      (sub_attr : Text) (test : Test) (vs vs' : List Json)
      → Alike vs vs'
      → sub_holds compare sub_attr test vs ≡ sub_holds compare sub_attr test vs'
  unfolding sub_holds
  sub_holds-Alike [] test vs vs' h = ap not (no_values-Alike vs vs' h)
  sub_holds-Alike (c ∷ s) test vs vs' h =
      holds-Alike false test _ _ (lookup-Alike ((c ∷ s) ∷ []) vs vs' h)

  mutual
    unfolding filter_match cond_match sub_match

    filter_order :
        (f : Filter) (m m' : Fields)
        → Reordered m m'
        → filter_match compare f m ≡ filter_match compare f m'
    filter_order end m m' h = refl
    filter_order (and c f) m m' h = rw (cond_order c m m' h, filter_order f m m' h) refl

    cond_order :
        (c : Cond) (m m' : Fields)
        → Reordered m m'
        → cond_match compare c m ≡ cond_match compare c m'
    cond_order (group f) m m' h = filter_order f m m' h
    cond_order (attr path s test) m m' h =
        sub_order s (is_case_exact path) test _ _
          (lookup-Alike path _ _ (skip (objects h) none_alike))

    sub_order :
        (s : Sub) (exact : Bool) (test : Test) (vs vs' : List Json)
        → Alike vs vs'
        → sub_match compare s exact test vs ≡ sub_match compare s exact test vs'
    sub_order no_sub exact test vs vs' h = holds-Alike exact test vs vs' h
    sub_order (sub f sub_attr) exact test vs vs' h =
        let p = matching (λ m. filter_match compare f m) in
        sub_holds-Alike sub_attr test (keep p vs) (keep p vs') (
          keep-Alike p vs vs' (Respects-matching (λ m. filter_match compare f m) (filter_order f))
            h)

  -- Whether a resource matches a filter does not depend on the order of the entries in the maps of
  -- the resource, at any depth.
  pub filter_match-Reordered :
      (f : Filter) (m m' : Fields)
      → Reordered m m'
      → filter_match compare f m ≡ filter_match compare f m'
  filter_match-Reordered = filter_order
