-- ===== src/Sse/Audience.antt =====
-- internal/sse/sse.go: who may see a message, live and replayed.
use boardchestrator.Prelude.{
  suc, ◌≡◌, refl, sym, subst, ◌∙◌, inl, inr, Bool, true, false, not, List, [], ◌∷◌, map, arith,
  Text, text_eq, text_eq→eq, is_empty, Bool-cases, length, any→In, ltb, ◌==◌, In, In-append,
  In-keep,
}
use boardchestrator.EventBus.{Event}
use boardchestrator.Sse.{
  SseMessage, Client, Hub, new_hub, deliverable, offer, deliver_to, framed, send_to, targeted, Op,
  adds, removes, dispatches, sends, apply, run_ops,
}

-- A client's buffer holds messages of its audience only.
pub Heard : Client → Type 0
Heard c = (m : SseMessage) → In m c.buffer → deliverable c m ≡ true

abbrev AllHeard : List Client → Type 0
AllHeard cs = (c : Client) → In c cs → Heard c

offer-Heard :
    (msg : SseMessage) (c : Client) → deliverable c msg ≡ true → Heard c → Heard (offer msg c)
unfolding Heard deliverable
offer-Heard msg c fits heard = elim (Bool-cases (ltb (length c.buffer) c.capacity)) [
  | inr e ↦ simp (e) heard
  | inl e ↦ simp (e) (λ m held. elim (In-append m c.buffer (msg ∷ []) held) [
    | inl old ↦ heard m old
    | inr (inl new) ↦ subst (λ t. deliverable c t ≡ true) (sym new) fits
    | inr (inr none_left) ↦ absurd none_left
  ])
]

not-false : (b : Bool) → not b ≡ false → b ≡ true
not-false b h = ground arith

deliver_to-Heard : (msg : SseMessage) (c : Client) → Heard c → Heard (deliver_to msg c)
unfolding Heard deliver_to deliverable
deliver_to-Heard msg c heard = elim (Bool-cases (not (deliverable c msg))) [
  | inl e ↦ simp (e) heard
  | inr e ↦ simp (e) (offer-Heard msg c (not-false (deliverable c msg) e) heard)
]

In-map :
    (f : Client → Client) (t : Client) (cs : List Client)
    → In t (map f cs)
    → (c : Client) × In c cs × (t ≡ f c)
In-map f t [] m = absurd m
In-map f t (c ∷ cs) (inl e) = (c, inl refl, e)
In-map f t (c ∷ cs) (inr m) = let (c', m', e) = In-map f t cs m in (c', inr m', e)

map-AllHeard :
    (f : Client → Client) (cs : List Client)
    → ((c : Client) → Heard c → Heard (f c))
    → AllHeard cs
    → AllHeard (map f cs)
map-AllHeard f cs keeps h t m =
    let (c, m', e) = In-map f t cs m in subst Heard (sym e) (keeps c (h c m'))

send-Heard :
    (user_id : Text) (msg : SseMessage) (c : Client)
    → msg.target_user ≡ user_id
    → is_empty user_id ≡ false
    → Heard c
    → Heard (send_to user_id msg c)
unfolding Heard send_to deliverable
send-Heard user_id msg c target named heard = elim (Bool-cases (not (text_eq c.user_id user_id))) [
  | inl e ↦ simp (e) heard
  | inr e ↦
      let mine : text_eq c.user_id user_id ≡ true = not-false (text_eq c.user_id user_id) e in
      let fits : deliverable c msg ≡ true = simp (target, named) mine in
      simp (e) (offer-Heard msg c fits heard)
]

apply-AllHeard :
    (marshal : Event → Text) (op : Op) (h : Hub)
    → AllHeard h.subs
    → AllHeard (apply marshal op h).subs
unfolding apply Heard
apply-AllHeard marshal (adds id user_id orgs capacity) h heard = λ c m. elim m [
  | inl new ↦ subst Heard (sym new) (λ x none_left. absurd none_left)
  | inr old ↦ heard c old
]
apply-AllHeard marshal (removes id) h heard =
    λ c m. let (old, _) = In-keep (λ x. not (x.id == id)) c h.subs m in heard c old
apply-AllHeard marshal (dispatches ev) h heard =
    map-AllHeard (deliver_to (framed marshal (suc h.seq) ev)) h.subs
      (deliver_to-Heard (framed marshal (suc h.seq) ev)) heard
apply-AllHeard marshal (sends user_id name body) h heard =
    let msg = targeted (suc h.seq) user_id name body in
    elim (Bool-cases (is_empty user_id)) [
      | inl e ↦ simp (e) heard
      | inr e ↦ simp (e) (
          map-AllHeard (send_to user_id msg) h.subs (λ c k. send-Heard user_id msg c refl e k)
            heard)
    ]

run_ops-AllHeard :
    (marshal : Event → Text) (ops : List Op) (h : Hub)
    → AllHeard h.subs
    → AllHeard (run_ops marshal ops h).subs
unfolding run_ops
run_ops-AllHeard marshal [] h heard = heard
run_ops-AllHeard marshal (op ∷ ops) h heard =
    run_ops-AllHeard marshal ops (apply marshal op h) (apply-AllHeard marshal op h heard)

not_both : false ≡ true → ⊥
not_both q = cc

-- What `deliverable` means: a message for a user is the client's own, and any other message of an
-- org is of an org of the client.
pub Audience : Client → SseMessage → Type 0
Audience c m =
    (is_empty m.target_user ≡ false → c.user_id ≡ m.target_user)
    × (is_empty m.target_user ≡ true → is_empty m.org ≡ false → In m.org c.orgs)

pub deliverable-Audience : (c : Client) (m : SseMessage) → deliverable c m ≡ true → Audience c m
unfolding deliverable Audience
deliverable-Audience c m h = (
  (λ e. text_eq→eq c.user_id m.target_user (sym (simp (e)) ∙ h)),
  (λ e named.
      let (org, held, same) = any→In (text_eq m.org) c.orgs (sym (simp (e, named)) ∙ h) in
      subst (λ t. In t c.orgs) (sym (text_eq→eq m.org org same)) held),
)

-- Whatever connections, events and targeted messages a new hub has seen, each message that waits
-- for a client is of that client's audience: one that is sent to a user is only ever in that
-- user's buffers, and one of an org only in those of its members.
pub run_ops-Audience :
    (marshal : Event → Text) (ops : List Op) (c : Client) (m : SseMessage)
    → In c (run_ops marshal ops new_hub).subs
    → In m c.buffer
    → Audience c m
unfolding Heard
run_ops-Audience marshal ops c m here held =
    deliverable-Audience c m
      (run_ops-AllHeard marshal ops new_hub (λ t none_left. absurd none_left) c here m held)
