-- ===== src/Event/Tests.antt =====
-- The laws of the event queue on a queue of two events.
use uriscv.Prelude.{ℕ, ◌≡◌, refl, some, [], ◌∷◌, arith}
use uriscv.Event.{EventQueue, event, insert_q, remove_head}
use uriscv.Event.Order.{IsQueue}
use uriscv.Event.Search.{in_order, insert_q-eq-in_order, insert_q-IsQueue, remove_head-IsQueue}

-- Callbacks are numbers here. The pointer is on the second event.
abbrev two_events : EventQueue ℕ
two_events = record {
  events =
      record { addr = 1; deadline = 10; callback = 0 }
      ∷ record { addr = 2; deadline = 20; callback = 1 }
      ∷ [];
  last_ins = some 2;
}

two_events-IsQueue : IsQueue two_events
two_events-IsQueue = record {
  sorted = (omega arith, (omega arith, tt));
  distinct = (refl, (refl, tt));
  live = (_, refl);
}

insert_q-eq-in_order_example :
    insert_q 3 two_events 5 25 7
    ≡ some (record { events = in_order (event 3 5 25 7) two_events.events; last_ins = some 3 }, 30)
insert_q-eq-in_order_example = insert_q-eq-in_order 3 two_events 5 25 7 two_events-IsQueue

insert_q-IsQueue_example :
    (r : EventQueue ℕ) × (d : ℕ) × (insert_q 3 two_events 5 10 7 ≡ some (r, d)) × IsQueue r
insert_q-IsQueue_example = insert_q-IsQueue 3 two_events 5 10 7 two_events-IsQueue refl

remove_head-IsQueue_example : IsQueue (remove_head two_events)
remove_head-IsQueue_example = remove_head-IsQueue two_events two_events-IsQueue
