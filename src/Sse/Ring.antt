-- ===== src/Sse/Ring.antt =====
-- internal/sse/sse.go: the replay ring.
use boardchestrator.Prelude.{
  ℕ, suc, ◌-◌, ◌⊎◌, ◌≤◌, ◌<◌, ◌≡◌, sym, ap, subst, inl, inr, true, false, ◌&&◌, List, [], ◌∷◌, ◌++◌,
  arith, Text, is_empty, Bool-cases, length, length-append, drop, ltb, ltb→lt, In, In-append,
  In-keep, &&-eq-true,
}
use boardchestrator.EventBus.{Event}
use boardchestrator.Sse.{
  SseMessage, Client, Hub, new_hub, deliverable, record_message, framed, replay_since, Op, adds,
  removes, dispatches, sends, apply, run_ops,
}
use boardchestrator.Sse.Audience.{Audience, deliverable-Audience}

-- The ring is within its size, and holds messages of events only, numbered up to `seq`.
record RingSound (h : Hub) : Type 0 where
  bounded : length h.ring ≤ 256
  untargeted : (m : SseMessage) → In m h.ring → is_empty m.target_user ≡ true
  numbered : (m : SseMessage) → In m h.ring → m.id ≤ h.seq

In-drop : (m : SseMessage) (ring : List SseMessage) → In m (drop 1 ring) → In m ring
In-drop m [] held = held
In-drop m (x ∷ ring) held = inr held

length-drop : (ring : List SseMessage) → length (drop 1 ring) ≤ length ring - 1
length-drop [] = omega arith
length-drop (x ∷ ring) = omega arith

not_below : (a b : ℕ) → ltb a b ≡ false → b ≤ a
not_below a b h = ground arith

In-record :
    (m msg : SseMessage) (ring : List SseMessage)
    → In m (record_message msg ring)
    → In m ring ⊎ m ≡ msg
unfolding record_message
In-record m msg ring held = elim (Bool-cases (ltb (length ring) 256)) [
  | inl e ↦ last_one ring (subst (In m) (simp (e)) held)
  | inr e ↦ elim (last_one (drop 1 ring) (subst (In m) (simp (e)) held)) [
    | inl old ↦ inl (In-drop m ring old)
    | inr new ↦ inr new
  ]
]
  where
    last_one : (xs : List SseMessage) → In m (xs ++ msg ∷ []) → In m xs ⊎ m ≡ msg
    last_one xs h = elim (In-append m xs (msg ∷ []) h) [
      | inl old ↦ inl old
      | inr (inl new) ↦ inr new
      | inr (inr none_left) ↦ absurd none_left
    ]

length-record_message_le :
    (msg : SseMessage) (ring : List SseMessage)
    → length ring ≤ 256
    → length (record_message msg ring) ≤ 256
unfolding record_message
length-record_message_le msg ring small =
    let whole = length-append ring (msg ∷ []) in
    let rest = length-append (drop 1 ring) (msg ∷ []) in
    let shorter = length-drop ring in
    elim (Bool-cases (ltb (length ring) 256)) [
      | inl e ↦ let room = ltb→lt (length ring) 256 e in simp (e) (omega arith)
      | inr e ↦ let full = not_below (length ring) 256 e in simp (e) (omega arith)
    ]

apply-RingSound :
    (marshal : Event → Text) (op : Op) (h : Hub) → RingSound h → RingSound (apply marshal op h)
unfolding apply
apply-RingSound marshal (adds id user_id orgs capacity) h k = record {
  bounded = k.bounded;
  untargeted = k.untargeted;
  numbered = k.numbered;
}
apply-RingSound marshal (removes id) h k = record {
  bounded = k.bounded;
  untargeted = k.untargeted;
  numbered = k.numbered;
}
apply-RingSound marshal (dispatches ev) h k =
    let msg = framed marshal (suc h.seq) ev in
    record {
      bounded = length-record_message_le msg h.ring k.bounded;
      untargeted = λ m held. elim (In-record m msg h.ring held) [
        | inl old ↦ k.untargeted m old
        | inr new ↦ ap (λ (x : SseMessage). is_empty x.target_user) new
      ];
      numbered = λ m held. elim (In-record m msg h.ring held) [
        | inl old ↦ let n = k.numbered m old in omega arith
        | inr new ↦ subst (λ (x : SseMessage). x.id ≤ suc h.seq) (sym new) (omega arith)
      ];
    }
apply-RingSound marshal (sends user_id name body) h k = elim (Bool-cases (is_empty user_id)) [
  | inl e ↦ simp (e) k
  | inr e ↦ simp (e) (record {
    bounded = k.bounded;
    untargeted = k.untargeted;
    numbered = λ m held. let n = k.numbered m held in omega arith;
  })
]

run_ops-RingSound :
    (marshal : Event → Text) (ops : List Op) (h : Hub)
    → RingSound h
    → RingSound (run_ops marshal ops h)
unfolding run_ops
run_ops-RingSound marshal [] h k = k
run_ops-RingSound marshal (op ∷ ops) h k =
    run_ops-RingSound marshal ops (apply marshal op h) (apply-RingSound marshal op h k)

-- Whatever a new hub has seen, its ring holds at most 256 messages, and a message that is
-- replayed to a client is newer than the id that the client gives and no newer than the last one
-- assigned, is not one that was sent to a single user, and is of the client's audience.
pub replay_since-Audience :
    (marshal : Event → Text) (ops : List Op) (last_id : ℕ) (c : Client)
    → (length (run_ops marshal ops new_hub).ring ≤ 256)
      × ((m : SseMessage)
          → In m (replay_since last_id c (run_ops marshal ops new_hub).ring)
          → (last_id < m.id)
            × (m.id ≤ (run_ops marshal ops new_hub).seq)
            × (is_empty m.target_user ≡ true)
            × Audience c m)
unfolding replay_since
replay_since-Audience marshal ops last_id c =
    let k = run_ops-RingSound marshal ops new_hub (record {
      bounded = omega arith;
      untargeted = λ m none_left. absurd none_left;
      numbered = λ m none_left. absurd none_left;
    }) in
    (
      k.bounded,
      (λ m held.
          let (kept, both) =
            In-keep (λ x. ltb last_id x.id && deliverable c x) m (run_ops marshal ops new_hub).ring
              held in
          let (newer, fits) = &&-eq-true (ltb last_id m.id) (deliverable c m) both in
          (
            ltb→lt last_id m.id newer,
            k.numbered m kept,
            k.untargeted m kept,
            deliverable-Audience c m fits,
          )),
    )
