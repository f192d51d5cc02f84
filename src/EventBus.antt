-- ===== src/EventBus.antt =====
-- internal/event: the bus that fans an action's events out to its subscribers. A subscription's
-- channel is the list of the events in its buffer, and its pointer is a number.
pub mod Delivery
mod Examples
use boardchestrator.Prelude.{
  ℕ, suc, ◌+◌, Bool, true, false, ◌&&◌, not, Option, none, some, List, [], ◌∷◌, ◌++◌, map, Text,
  text_eq, is_empty, if◌then◌else◌, length, any, keep, ltb, ◌==◌,
}
use boardchestrator.Action.{actor_type_text}
use boardchestrator.Action.Model

pub record Event : Type 0 where
  pub name : Text
  pub org : Text
  pub actor_type : Text
  pub actor_id : Text
  pub subject : Text
  pub payload : Option Text

-- A nil set of names is `none`.
pub record Filter : Type 0 where
  pub org : Text
  pub names : Option (List Text)

unfoldable pub matches : Filter → Event → Bool
unfolding text_eq
matches f ev =
    if not (is_empty f.org) && not (text_eq f.org ev.org)
    then false
    else elim f.names [ none ↦ true | some names ↦ any (text_eq ev.name) names ]

pub record Subscription : Type 0 where
  pub id : ℕ
  pub filter : Filter
  pub capacity : ℕ
  pub buffer : List Event

-- `drops` holds the org of each event that was dropped, as the counter's labels do.
pub record Bus : Type 0 where
  pub subs : List Subscription
  pub next_id : ℕ
  pub drops : List Text

abbrev pub new_bus : Bus
new_bus = record { subs = []; next_id = 0; drops = [] }

abbrev pub default_buffer : ℕ
default_buffer = 64

-- Bus.Subscribe: a size of 0 or less is 0 here.
unfoldable pub subscribe : Filter → ℕ → Bus → Bus
subscribe f buffer b = record b {
  subs =
      record {
        id = b.next_id;
        filter = f;
        capacity = if ltb 0 buffer then buffer else default_buffer;
        buffer = [];
      }
      ∷ b.subs;
  next_id = suc b.next_id;
}

-- Bus.remove
unfoldable pub remove : ℕ → Bus → Bus
remove id b = record b { subs = keep (λ s. not (s.id == id)) b.subs }

abbrev pub has_room : Subscription → Bool
has_room s = ltb (length s.buffer) s.capacity

-- The body of the loop of Publish, for one subscription.
unfoldable pub deliver : Event → Subscription → Subscription
unfolding matches
deliver ev s =
    if matches s.filter ev && has_room s then record s { buffer = s.buffer ++ ev ∷ [] } else s

-- The drops that the loop counts.
unfoldable pub dropped : Event → List Subscription → List Text
unfolding matches
dropped ev [] = []
dropped ev (s ∷ ss) =
    let rest = dropped ev ss in
    if matches s.filter ev && not (has_room s) then ev.org ∷ rest else rest

-- Bus.Publish
unfoldable pub publish : Event → Bus → Bus
unfolding deliver dropped
publish ev b = record b { subs = map (deliver ev) b.subs; drops = b.drops ++ dropped ev b.subs }

-- SinkAdapter.Emit
unfoldable pub emit : Model.Event → Bus → Bus
unfolding publish
emit ev b =
    publish
      (record {
        name = ev.name;
        org = ev.org;
        actor_type = actor_type_text ev.actor.type;
        actor_id = ev.actor.id;
        subject = ev.subject;
        payload = ev.payload;
      })
      b

-- A receive from a subscription's channel.
abbrev pub tail : List Event → List Event
tail [] = []
tail (ev ∷ evs) = evs

unfoldable pub receive : ℕ → Bus → Bus
receive id b = record b {
  subs = map (λ s. if s.id == id then record s { buffer = tail s.buffer } else s) b.subs;
}

-- What may happen to a bus.
pub data Op : Type 0 where
  subscribes : Filter → ℕ → Op
  closes : ℕ → Op
  publishes : Event → Op
  receives : ℕ → Op

unfoldable pub apply : Op → Bus → Bus
unfolding subscribe remove publish receive
apply (subscribes f buffer) b = subscribe f buffer b
apply (closes id) b = remove id b
apply (publishes ev) b = publish ev b
apply (receives id) b = receive id b

unfoldable pub run_ops : List Op → Bus → Bus
unfolding apply
run_ops [] b = b
run_ops (op ∷ ops) b = run_ops ops (apply op b)
