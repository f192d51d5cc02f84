-- ===== src/EventBus/Delivery.antt =====
-- internal/event/event.go: what a subscription's buffer may hold, and where each event goes.
use boardchestrator.Prelude.{
  ◌≤◌, ◌<◌, ◌≡◌, refl, sym, subst, ◌∙◌, ◌↔◌, ◌⊎◌, inl, inr, Bool, true, false, ◌&&◌, not, Option,
  none, some, List, [], ◌∷◌, ◌++◌, map, arith, Text, text_eq, text_eq→eq, eq→text_eq, text_eq_refl,
  is_empty, if◌then◌else◌, Bool-cases, length, length-append, any, any→In, In→any, ltb→lt, ◌==◌, In,
  In-append, In-keep, &&-eq-true,
}
use boardchestrator.EventBus.{
  Event, Filter, matches, Subscription, Bus, new_bus, subscribe, remove, has_room, deliver, dropped,
  publish, tail, receive, Op, subscribes, closes, publishes, receives, apply, run_ops,
}

-- A buffer holds matching events only, and no more than it has room for.
pub record Sound (s : Subscription) : Type 0 where
  pub matching : (ev : Event) → In ev s.buffer → matches s.filter ev ≡ true
  pub bounded : length s.buffer ≤ s.capacity

abbrev pub AllSound : List Subscription → Type 0
AllSound ss = (s : Subscription) → In s ss → Sound s

deliver-Sound : (ev : Event) (s : Subscription) → Sound s → Sound (deliver ev s)
unfolding deliver
deliver-Sound ev s h = elim (Bool-cases (matches s.filter ev && has_room s)) [
  | inr e ↦ simp (e) h
  | inl e ↦
      let (fits, room) = &&-eq-true (matches s.filter ev) (has_room s) e in
      simp (e) (record {
        matching = λ x m. elim (In-append x s.buffer (ev ∷ []) m) [
          | inl old ↦ h.matching x old
          | inr (inl new) ↦ subst (λ t. matches s.filter t ≡ true) (sym new) fits
          | inr (inr nowhere) ↦ absurd nowhere
        ];
        bounded =
            let lt = ltb→lt (length s.buffer) s.capacity room in
            let len = length-append s.buffer (ev ∷ []) in omega arith;
      })
]

In-map :
    (f : Subscription → Subscription) (t : Subscription) (ss : List Subscription)
    → In t (map f ss)
    → (s : Subscription) × In s ss × (t ≡ f s)
In-map f t [] m = absurd m
In-map f t (s ∷ ss) (inl e) = (s, inl refl, e)
In-map f t (s ∷ ss) (inr m) = let (s', m', e) = In-map f t ss m in (s', inr m', e)

map-AllSound :
    (f : Subscription → Subscription) (ss : List Subscription)
    → ((s : Subscription) → Sound s → Sound (f s))
    → AllSound ss
    → AllSound (map f ss)
map-AllSound f ss keeps h t m =
    let (s, m', e) = In-map f t ss m in subst Sound (sym e) (keeps s (h s m'))

In-tail : (ev : Event) (evs : List Event) → In ev (tail evs) → In ev evs
In-tail ev [] m = m
In-tail ev (x ∷ evs) m = inr m

length-tail_le : (evs : List Event) → length (tail evs) ≤ length evs
length-tail_le [] = omega arith
length-tail_le (x ∷ evs) = omega arith

tail-Sound : (s : Subscription) → Sound s → Sound (record s { buffer = tail s.buffer })
tail-Sound s h = record {
  matching = λ ev m. h.matching ev (In-tail ev s.buffer m);
  bounded = let a = length-tail_le s.buffer in let k = h.bounded in omega arith;
}

apply-AllSound : (op : Op) (b : Bus) → AllSound b.subs → AllSound (apply op b).subs
unfolding apply subscribe remove publish receive
apply-AllSound (subscribes f buffer) b h = λ s m. elim m [
  | inl new ↦
      subst Sound (sym new)
        (record { matching = λ ev nowhere. absurd nowhere; bounded = omega arith })
  | inr old ↦ h s old
]
apply-AllSound (closes id) b h =
    λ s m. let (old, _) = In-keep (λ x. not (x.id == id)) s b.subs m in h s old
apply-AllSound (publishes ev) b h = map-AllSound (deliver ev) b.subs (deliver-Sound ev) h
apply-AllSound (receives id) b h =
    map-AllSound (λ s. if s.id == id then record s { buffer = tail s.buffer } else s) b.subs
      (λ s k. elim (Bool-cases (s.id == id)) [
        | inl e ↦ simp (e) (tail-Sound s k)
        | inr e ↦ simp (e) k
      ])
      h

run_ops-AllSound : (ops : List Op) (b : Bus) → AllSound b.subs → AllSound (run_ops ops b).subs
unfolding run_ops
run_ops-AllSound [] b h = h
run_ops-AllSound (op ∷ ops) b h = run_ops-AllSound ops (apply op b) (apply-AllSound op b h)

-- A filter that names an org lets through that org's events only.
matches_org :
    (f : Filter) (ev : Event) → matches f ev ≡ true → is_empty f.org ≡ false → ev.org ≡ f.org
unfolding matches
matches_org f ev h named = elim (Bool-cases (text_eq f.org ev.org)) [
  | inl e ↦ sym (text_eq→eq f.org ev.org e)
  | inr e ↦ absurd (not_both (sym (simp (named, e)) ∙ h))
]
  where
    not_both : false ≡ true → ⊥
    not_both q = cc

-- Whatever subscriptions, publications, receives and closes a new bus has seen, a subscription
-- whose filter names an org holds events of that org only, and no buffer is over its capacity.
pub run_ops_isolates :
    (ops : List Op) (s : Subscription)
    → In s (run_ops ops new_bus).subs
    → ((ev : Event) → In ev s.buffer → is_empty s.filter.org ≡ false → ev.org ≡ s.filter.org)
      × (length s.buffer ≤ s.capacity)
run_ops_isolates ops s m =
    let sound = run_ops-AllSound ops new_bus (λ t nowhere. absurd nowhere) s m in
    ((λ ev held named. matches_org s.filter ev (sound.matching ev held) named), sound.bounded)

-- The filter lets the event through: it names no org or the event's, and no names or the event's.
pub record Wants (f : Filter) (ev : Event) : Type 0 where
  pub of_org : (is_empty f.org ≡ true) ⊎ (f.org ≡ ev.org)
  pub of_name : (names : List Text) → f.names ≡ some names → In ev.name names

org_test : (f : Filter) (ev : Event) → Bool
unfolding text_eq
org_test f ev = not (is_empty f.org) && not (text_eq f.org ev.org)

name_test : Option (List Text) → Text → Bool
unfolding text_eq
name_test names n = elim names [ none ↦ true | some names ↦ any (text_eq n) names ]

name_test_iff :
    (o : Option (List Text)) (n : Text)
    → (name_test o n ≡ true) ↔ ((names : List Text) → o ≡ some names → In n names)
unfolding name_test
name_test_iff none n = (λ h names e. absurd (cc e), λ h. refl)
name_test_iff (some xs) n = (
  (λ h names e.
      let (m, there, same) = any→In (text_eq n) xs h in
      let xs-names : xs ≡ names = cc in
      subst (λ t. In n t) xs-names (subst (λ t. In t xs) (sym (text_eq→eq n m same)) there)),
  (λ h. In→any (text_eq n) n xs (h xs refl) (text_eq_refl n)),
)

blocks : Bool → Bool → Bool
blocks free same = not free && not same

blocks_iff : (free same : Bool) → (blocks free same ≡ false) ↔ ((free ≡ true) ⊎ (same ≡ true))
unfolding blocks
blocks_iff true same = (λ h. inl refl, λ h. refl)
blocks_iff false true = (λ h. inr refl, λ h. refl)
blocks_iff false false = (λ h. cc h, λ h. elim h [ inl e ↦ cc e | inr e ↦ cc e ])

org_test_iff :
    (f : Filter) (ev : Event)
    → (org_test f ev ≡ false) ↔ ((is_empty f.org ≡ true) ⊎ (f.org ≡ ev.org))
unfolding org_test blocks
org_test_iff f ev =
    let both = blocks_iff (is_empty f.org) (text_eq f.org ev.org) in
    (
      (λ h. elim (both.0 h) [
        | inl free ↦ inl free
        | inr same ↦ inr (text_eq→eq f.org ev.org same)
      ]),
      (λ h. elim h [
        | inl free ↦ both.1 (inl free)
        | inr same ↦ both.1 (inr (eq→text_eq f.org ev.org same))
      ]),
    )

guarded_iff : (b c : Bool) → ((if b then false else c) ≡ true) ↔ ((b ≡ false) × (c ≡ true))
guarded_iff true c = (λ h. cc h, λ (shut, h). cc shut)
guarded_iff false c = (λ h. (refl, h), λ (shut, h). h)

matches_iff : (f : Filter) (ev : Event) → (matches f ev ≡ true) ↔ Wants f ev
unfolding matches org_test name_test
matches_iff f ev =
    let both = guarded_iff (org_test f ev) (name_test f.names ev.name) in
    let orgs = org_test_iff f ev in
    let names = name_test_iff f.names ev.name in
    (
      (λ h. let (o, n) = both.0 h in record { of_org = orgs.0 o; of_name = names.0 n }),
      (λ w. both.1 (orgs.1 w.of_org, names.1 w.of_name)),
    )

-- What a publication makes of the subscriptions, and the drops that it counts.
pub data Delivered (ev : Event) : List Subscription → List Subscription → List Text → Type 0 where
  none_left : Delivered ev [] [] []
  put :
      {s : Subscription} {ss ss' : List Subscription} {ds : List Text}
      → Wants s.filter ev
      → length s.buffer < s.capacity
      → Delivered ev ss ss' ds
      → Delivered ev (s ∷ ss) (record s { buffer = s.buffer ++ ev ∷ [] } ∷ ss') ds
  lost :
      {s : Subscription} {ss ss' : List Subscription} {ds : List Text}
      → Wants s.filter ev
      → s.capacity ≤ length s.buffer
      → Delivered ev ss ss' ds
      → Delivered ev (s ∷ ss) (s ∷ ss') (ev.org ∷ ds)
  passed :
      {s : Subscription} {ss ss' : List Subscription} {ds : List Text}
      → (Wants s.filter ev → ⊥)
      → Delivered ev ss ss' ds
      → Delivered ev (s ∷ ss) (s ∷ ss') ds

no_room : (s : Subscription) → has_room s ≡ false → s.capacity ≤ length s.buffer
no_room s h = ground arith

all-Delivered :
    (ev : Event) (ss : List Subscription) → Delivered ev ss (map (deliver ev) ss) (dropped ev ss)
unfolding deliver dropped
all-Delivered ev [] = none_left
all-Delivered ev (s ∷ ss) =
    let rest = all-Delivered ev ss in
    elim (Bool-cases (matches s.filter ev)) [
      | inr e ↦ simp (e) (passed (λ w. cc (e, (matches_iff s.filter ev).1 w)) rest)
      | inl e ↦
          let wants = (matches_iff s.filter ev).0 e in
          elim (Bool-cases (has_room s)) [
            | inl room ↦ simp (e, room) (put wants (ltb→lt (length s.buffer) s.capacity room) rest)
            | inr full ↦ simp (e, full) (lost wants (no_room s full) rest)
          ]
    ]

-- A publication leaves no subscription out: one that does not want the event is unchanged, one
-- that wants it and has room gets the event itself at the end of its buffer, and one that wants
-- it and is full is unchanged and counts a drop for the event's org, in the order of the
-- subscriptions. Earlier drops stay.
pub publish_accounts :
    (ev : Event) (b : Bus)
    → (ds : List Text) × Delivered ev b.subs (publish ev b).subs ds
      × ((publish ev b).drops ≡ b.drops ++ ds)
unfolding publish
publish_accounts ev b = (dropped ev b.subs, all-Delivered ev b.subs, refl)
