-- ===== src/Sse/Examples.antt =====
-- Two users in two orgs.
use boardchestrator.Prelude.{
  ◌≤◌, ◌<◌, ◌≡◌, refl, inl, true, none, List, [], ◌∷◌, Text, codes, text_eq, has_prefix, is_empty,
  length, In,
}
use boardchestrator.EventBus.{Event}
use boardchestrator.Sse.{
  SseMessage, Client, new_hub, deliverable, event_name_for, replay_since, Op, adds, dispatches,
  sends, run_ops,
}
use boardchestrator.Sse.Audience.{Audience, run_ops-Audience}
use boardchestrator.Sse.Ring.{replay_since-Audience}

abbrev event : Text → Event
event org = record {
  name = codes "task.create";
  org = org;
  actor_type = codes "user";
  actor_id = codes "ada";
  subject = codes "t1";
  payload = none;
}

abbrev marshal : Event → Text
marshal ev = ev.subject

abbrev ops : List Op
ops =
    adds 0 (codes "ada") (codes "o1" ∷ []) 32
    ∷ adds 1 (codes "eve") (codes "o2" ∷ []) 32
    ∷ dispatches (event (codes "o1"))
    ∷ sends (codes "eve") (codes "chat-delta") (codes "hi")
    ∷ []

program : Unit {0}
unfolding run_ops deliverable event_name_for text_eq has_prefix replay_since
program = tt

abbrev task_message : SseMessage
task_message = record {
  id = 1;
  name = codes "task-updated";
  body = codes "t1";
  org = codes "o1";
  target_user = [];
}

abbrev ada : Client
ada = record {
  id = 0;
  user_id = codes "ada";
  orgs = codes "o1" ∷ [];
  capacity = 32;
  buffer = task_message ∷ [];
}

abbrev chat_message : SseMessage
chat_message = record {
  id = 2;
  name = codes "chat-delta";
  body = codes "hi";
  org = [];
  target_user = codes "eve";
}

abbrev eve : Client
eve = record {
  id = 1;
  user_id = codes "eve";
  orgs = codes "o2" ∷ [];
  capacity = 32;
  buffer = chat_message ∷ [];
}

after_ops : (run_ops marshal ops new_hub).subs ≡ eve ∷ ada ∷ []
unfolding program
after_ops = refl

replayed : replay_since 0 ada (run_ops marshal ops new_hub).ring ≡ task_message ∷ []
unfolding program
replayed = refl

run_ops-Audience_example : Audience eve chat_message
unfolding program
run_ops-Audience_example = run_ops-Audience marshal ops eve chat_message (inl refl) (inl refl)

replay_since-Audience_example :
    (length (run_ops marshal ops new_hub).ring ≤ 256)
    × ((m : SseMessage)
        → In m (replay_since 0 ada (run_ops marshal ops new_hub).ring)
        → (0 < m.id)
          × (m.id ≤ (run_ops marshal ops new_hub).seq)
          × (is_empty m.target_user ≡ true)
          × Audience ada m)
replay_since-Audience_example = replay_since-Audience marshal ops 0 ada
