-- ===== src/Sse.antt =====
-- internal/sse/sse.go: the hub that streams events to browsers. A client's channel is the list of
-- the messages in its buffer, and its pointer is a number.
pub mod Audience
pub mod Ring
mod Examples
use boardchestrator.Prelude.{
  ℕ, suc, Bool, true, false, ◌&&◌, ◌||◌, not, List, [], ◌∷◌, ◌++◌, map, Text, codes, text_eq,
  is_empty, has_prefix, if◌then◌else◌, length, any, keep, ltb, drop, ◌==◌,
}
use boardchestrator.EventBus.{Event}

abbrev pub ring_size : ℕ
ring_size = 256

unfoldable pub event_name_for : Text → Text
unfolding text_eq has_prefix
event_name_for action =
    if text_eq action (codes "task.move") || has_prefix action (codes "task.")
    then codes "task-updated"
    else if text_eq action (codes "notification.markread")
        || has_prefix action (codes "notification.")
    then codes "notification"
    else if has_prefix action (codes "chat.")
    then codes "chat-delta"
    else if has_prefix action (codes "run.")
    then codes "run-status"
    else codes "message"

pub record SseMessage : Type 0 where
  pub id : ℕ
  pub name : Text
  pub body : Text
  pub org : Text
  pub target_user : Text

pub record Client : Type 0 where
  pub id : ℕ
  pub user_id : Text
  pub orgs : List Text
  pub capacity : ℕ
  pub buffer : List SseMessage

pub record Hub : Type 0 where
  pub seq : ℕ
  pub subs : List Client
  pub ring : List SseMessage

abbrev pub new_hub : Hub
new_hub = record { seq = 0; subs = []; ring = [] }

unfoldable pub deliverable : Client → SseMessage → Bool
unfolding text_eq
deliverable c m =
    if not (is_empty m.target_user)
    then text_eq c.user_id m.target_user
    else if not (is_empty m.org)
    then any (text_eq m.org) c.orgs
    else true

-- Hub.record
unfoldable pub record_message : SseMessage → List SseMessage → List SseMessage
record_message msg ring =
    if ltb (length ring) ring_size then ring ++ msg ∷ [] else drop 1 ring ++ msg ∷ []

-- `select { case c.ch <- msg: default: }`
abbrev pub offer : SseMessage → Client → Client
offer msg c =
    if ltb (length c.buffer) c.capacity then record c { buffer = c.buffer ++ msg ∷ [] } else c

unfoldable pub deliver_to : SseMessage → Client → Client
unfolding deliverable
deliver_to msg c = if not (deliverable c msg) then c else offer msg c

-- The message of an event; `marshal` is marshalData.
abbrev pub framed : (Event → Text) → ℕ → Event → SseMessage
unfolding event_name_for
framed marshal id ev = record {
  id = id;
  name = event_name_for ev.name;
  body = marshal ev;
  org = ev.org;
  target_user = [];
}

-- Hub.dispatch
unfoldable pub dispatch_event : (Event → Text) → Event → Hub → Hub
unfolding record_message deliver_to framed
dispatch_event marshal ev h =
    let msg = framed marshal (suc h.seq) ev in
    record { seq = suc h.seq; ring = record_message msg h.ring; subs = map (deliver_to msg) h.subs }

unfoldable pub replay_since : ℕ → Client → List SseMessage → List SseMessage
unfolding deliverable
replay_since last_id c = keep (λ m. ltb last_id m.id && deliverable c m)

abbrev pub targeted : ℕ → Text → Text → Text → SseMessage
targeted id user_id name body = record {
  id = id;
  name = name;
  body = body;
  org = [];
  target_user = user_id;
}

-- The body of the loop of SendToUser.
unfoldable pub send_to : Text → SseMessage → Client → Client
unfolding text_eq
send_to user_id msg c = if not (text_eq c.user_id user_id) then c else offer msg c

-- Hub.SendToUser
unfoldable pub send_to_user : Text → Text → Text → Hub → Hub
unfolding send_to
send_to_user user_id name body h = if is_empty user_id then h else record h {
  seq = suc h.seq;
  subs = map (send_to user_id (targeted (suc h.seq) user_id name body)) h.subs;
}

-- Hub.add, for a client with an empty buffer, and Hub.remove.
unfoldable pub add_client : ℕ → Text → List Text → ℕ → Hub → Hub
add_client id user_id orgs capacity h = record h {
  subs =
      record { id = id; user_id = user_id; orgs = orgs; capacity = capacity; buffer = [] } ∷ h.subs;
}

unfoldable pub remove_client : ℕ → Hub → Hub
remove_client id h = record h { subs = keep (λ c. not (c.id == id)) h.subs }

-- What may happen to a hub.
pub data Op : Type 0 where
  adds : ℕ → Text → List Text → ℕ → Op
  removes : ℕ → Op
  dispatches : Event → Op
  sends : Text → Text → Text → Op

unfoldable pub apply : (Event → Text) → Op → Hub → Hub
unfolding add_client remove_client dispatch_event send_to_user
apply marshal (adds id user_id orgs capacity) h = add_client id user_id orgs capacity h
apply marshal (removes id) h = remove_client id h
apply marshal (dispatches ev) h = dispatch_event marshal ev h
apply marshal (sends user_id name body) h = send_to_user user_id name body h

unfoldable pub run_ops : (Event → Text) → List Op → Hub → Hub
unfolding apply
run_ops marshal [] h = h
run_ops marshal (op ∷ ops) h = run_ops marshal ops (apply marshal op h)
