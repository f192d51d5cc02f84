-- ===== src/Owners/Keys.antt =====
-- The keys of the membership table, and rows with keys.
use boardchestrator.Prelude.{
  All-keep, All-In, ◌≡◌, refl, sym, ◌∙◌, inl, inr, Bool, true, false, ◌&&◌, ◌||◌, not, some, List,
  [], ◌∷◌, keep, map, Text, text_eq, text_eq→eq, eq→text_eq, Bool-cases, In, All, arith,
}
use boardchestrator.Owners.{Membership, no_rows, is_only}

-- Two rows of one primary key, or of one actor on one resource, which the table refuses.
abbrev pub clashes : Membership → Membership → Bool
clashes m n =
    text_eq m.id n.id
    || (text_eq m.org_id n.org_id
        && text_eq m.actor_id n.actor_id
        && text_eq m.actor_type n.actor_type
        && text_eq m.resource_type n.resource_type
        && text_eq m.resource_id n.resource_id)

unfoldable pub HasKeys : List Membership → Type 0
HasKeys [] = Unit {0}
HasKeys (m ∷ ms) = All (λ (n : Membership). clashes m n ≡ false) ms × HasKeys ms

pub clashes-id : (m n : Membership) → clashes m n ≡ false → text_eq m.id n.id ≡ false
clashes-id m n h = ground arith

pub HasKeys-keep : (p : Membership → Bool) (ms : List Membership) → HasKeys ms → HasKeys (keep p ms)
unfolding HasKeys
HasKeys-keep p [] h = tt
HasKeys-keep p (m ∷ ms) (fresh, h) = elim (Bool-cases (p m)) [
  | inl e ↦
      rw e (All-keep (λ (n : Membership). clashes m n ≡ false) p ms fresh, HasKeys-keep p ms h)
  | inr e ↦ rw e (HasKeys-keep p ms h)
]

pub text_eq_swap : (s t : Text) → text_eq s t ≡ true → text_eq t s ≡ true
text_eq_swap s t e = eq→text_eq t s (sym (text_eq→eq s t e))

pub HasKeys-same :
    (a b : Membership) (ms : List Membership)
    → HasKeys ms
    → In a ms
    → In b ms
    → text_eq a.id b.id ≡ true
    → a ≡ b
unfolding HasKeys
HasKeys-same a b [] keys ma mb e = absurd ma
HasKeys-same a b (m ∷ ms) (fresh, keys) (inl same) (inl same') e = same ∙ sym same'
HasKeys-same a b (m ∷ ms) (fresh, keys) (inl same) (inr mb) e =
    absurd (cc (clashes-id m b (All-In _ b ms fresh mb), e, same))
HasKeys-same a b (m ∷ ms) (fresh, keys) (inr ma) (inl same') e =
    absurd (cc (clashes-id m a (All-In _ a ms fresh ma), text_eq_swap a.id b.id e, same'))
HasKeys-same a b (m ∷ ms) (fresh, keys) (inr ma) (inr mb) e = HasKeys-same a b ms keys ma mb e

pub differ_from : (a b c : Text) → text_eq a c ≡ true → text_eq a b ≡ false → text_eq b c ≡ false
differ_from a b c e differ = elim (Bool-cases (text_eq b c)) [
  | inl e' ↦ absurd (cc (eq→text_eq a b (text_eq→eq a c e ∙ sym (text_eq→eq b c e')), differ))
  | inr e' ↦ e'
]

pub some_eq : {A : Type 0} (a b : A) → some a ≡ some b → a ≡ b
some_eq a b h = cc h

-- A list with no rows, or its first row.
pub rows-cases : (ms : List Membership) → not (no_rows ms) ≡ true → (o : Membership) × In o ms
rows-cases [] h = absurd (cc h)
rows-cases (o ∷ ms) h = (o, inl refl)

pub In→rows : (o : Membership) (ms : List Membership) → In o ms → not (no_rows ms) ≡ true
In→rows o [] m = absurd m
In→rows o (x ∷ ms) m = refl

-- Among rows with keys, more than one or another one than `id`.
pub other_row :
    (ms : List Membership) (id : Text)
    → HasKeys ms
    → not (no_rows ms) ≡ true
    → is_only ms id ≡ false
    → (o : Membership) × In o ms × (text_eq o.id id ≡ false)
unfolding is_only HasKeys
other_row [] id keys some_row last = absurd (cc some_row)
other_row (a ∷ []) id keys some_row last = (a, inl refl, last)
other_row (a ∷ b ∷ ms) id ((differ, fresh), keys) some_row last =
    elim (Bool-cases (text_eq a.id id)) [
      | inr e ↦ (a, inl refl, e)
      | inl e ↦ (b, inr (inl refl), differ_from a.id b.id id e (clashes-id a b differ))
    ]

pub All-map :
    (m : Membership) (f : Membership → Membership) (ms : List Membership)
    → ((k n : Membership) → clashes (f k) (f n) ≡ clashes k n)
    → All (λ (n : Membership). clashes m n ≡ false) ms
    → All (λ (n : Membership). clashes (f m) n ≡ false) (map f ms)
All-map m f [] same h = tt
All-map m f (n ∷ ms) same (hn, h) = (same m n ∙ hn, All-map m f ms same h)

pub HasKeys-map :
    (f : Membership → Membership) (ms : List Membership)
    → ((k n : Membership) → clashes (f k) (f n) ≡ clashes k n)
    → HasKeys ms
    → HasKeys (map f ms)
unfolding HasKeys
HasKeys-map f [] same h = tt
HasKeys-map f (m ∷ ms) same (fresh, h) = (All-map m f ms same fresh, HasKeys-map f ms same h)
