-- ===== src/EventBus/Examples.antt =====
-- Two orgs, and a subscription of one event.
use boardchestrator.Prelude.{
  ◌≤◌, ◌≡◌, refl, inl, false, none, List, [], ◌∷◌, ◌++◌, Text, codes, text_eq, is_empty, length, In,
}
use boardchestrator.EventBus.{
  Event, Filter, Subscription, new_bus, publish, emit, Op, subscribes, publishes, run_ops,
}
use boardchestrator.EventBus.Delivery.{run_ops_isolates, Delivered, publish_accounts}

abbrev event : Text → Event
event org = record {
  name = codes "task.create";
  org = org;
  actor_type = codes "user";
  actor_id = codes "ada";
  subject = codes "t1";
  payload = none;
}

abbrev org_filter : Filter
org_filter = record { org = codes "o1"; names = none }

abbrev ops : List Op
ops =
    subscribes org_filter 1
    ∷ publishes (event (codes "o2"))
    ∷ publishes (event (codes "o1"))
    ∷ publishes (event (codes "o1"))
    ∷ []

program : Unit {0}
unfolding run_ops text_eq publish emit
program = tt

abbrev subscription : Subscription
subscription = record {
  id = 0;
  filter = org_filter;
  capacity = 1;
  buffer = event (codes "o1") ∷ [];
}

after_ops : (run_ops ops new_bus).subs ≡ subscription ∷ []
unfolding program
after_ops = refl

one_drop : (run_ops ops new_bus).drops ≡ codes "o1" ∷ []
unfolding program
one_drop = refl

run_ops_isolates_example :
    ((ev : Event)
      → In ev subscription.buffer
      → is_empty subscription.filter.org ≡ false
      → ev.org ≡ subscription.filter.org)
    × (length subscription.buffer ≤ subscription.capacity)
unfolding program
run_ops_isolates_example = run_ops_isolates ops subscription (inl refl)

-- The bus has a full subscription of the org, which loses the event.
publish_accounts_example :
    (ds : List Text) × Delivered
      (event (codes "o1"))
      (run_ops ops new_bus).subs
      (publish (event (codes "o1")) (run_ops ops new_bus)).subs
      ds
    × ((publish (event (codes "o1")) (run_ops ops new_bus)).drops
        ≡ (run_ops ops new_bus).drops ++ ds)
publish_accounts_example = publish_accounts (event (codes "o1")) (run_ops ops new_bus)
