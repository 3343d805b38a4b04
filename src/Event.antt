-- ===== src/Event.antt =====
-- uriscv/event.cc: the time-ordered queue of device events. A node of the linked list is an entry
-- with its address; the order of the list is that of the `next` pointers, and the pointer to the
-- last insertion is an address, which may dangle. Addresses of new nodes come from the allocator.
pub mod Order
pub mod Search
mod Tests
use uriscv.Prelude.{
  ℕ, ◌+◌, ◌%◌, ◌^◌, Bool, true, false, not, ◌&&◌, Option, none, some, List, [], ◌∷◌, leb, ◌==◌,
  if◌then◌else◌,
}

-- `C` is the type of callbacks.
pub record Event (C : Type 0) : Type 0 where
  pub addr : ℕ
  pub deadline : ℕ
  pub callback : C

pub record EventQueue (C : Type 0) : Type 0 where
  pub events : List (Event C)
  pub last_ins : Option ℕ

-- `p == lastIns`.
points_at : Option ℕ → ℕ → Bool
points_at none a = false
points_at (some b) a = b == a

module _ {C : Type 0} where
  -- The constructor of `Event`: deadlines are 64-bit.
  pub event : ℕ → ℕ → ℕ → C → Event C
  event a ts inc callback = record { addr = a; deadline = (ts + inc) % 2 ^ 64; callback = callback }

  pub empty : EventQueue C
  empty = record { events = []; last_ins = none }

  -- `IsEmpty`, `nextDeadline` and `nextCallback`; `none` is their failed assertion.
  unfoldable pub is_empty : EventQueue C → Bool
  is_empty q = elim q.events [ [] ↦ true | e ∷ es ↦ false ]

  unfoldable pub next_deadline : EventQueue C → Option ℕ
  next_deadline q = elim q.events [ [] ↦ none | e ∷ es ↦ some e.deadline ]

  unfoldable pub next_callback : EventQueue C → Option C
  next_callback q = elim q.events [ [] ↦ none | e ∷ es ↦ some e.callback ]

  -- The node at an address.
  abbrev pub find : ℕ → List (Event C) → Option (Event C)
  find a [] = none
  find a (e ∷ es) = if e.addr == a then some e else find a es

  -- The loop past the nodes that are due no later than `ins`, and the insertion at its end.
  pub place : Event C → List (Event C) → List (Event C)
  place ins [] = ins ∷ []
  place ins (p ∷ ps) = if leb p.deadline ins.deadline then p ∷ place ins ps else ins ∷ p ∷ ps

  -- The search from one node on. That node is the first value of `q`, so it stays before `ins`.
  pub insert_from : Event C → List (Event C) → List (Event C)
  unfolding place
  insert_from ins [] = ins ∷ []
  insert_from ins (p ∷ ps) = if leb p.deadline ins.deadline then p ∷ place ins ps else p ∷ ins ∷ ps

  -- The same, from the node at an address.
  pub insert_at : ℕ → Event C → List (Event C) → List (Event C)
  unfolding insert_from
  insert_at a ins [] = []
  insert_at a ins (p ∷ ps) =
      if p.addr == a then insert_from ins (p ∷ ps) else p ∷ insert_at a ins ps

  -- The search, given the node that the last insertion points at: `none` is a read through a
  -- dangling pointer.
  start_at : Option (Event C) → ℕ → Event C → List (Event C) → Option (List (Event C))
  unfolding insert_from insert_at
  start_at none a ins es = none
  start_at (some l) a ins es =
      some (if leb ins.deadline l.deadline then insert_from ins es else insert_at a ins es)

  pub search_place : Option ℕ → Event C → List (Event C) → Option (List (Event C))
  unfolding start_at
  search_place none ins es = some (insert_from ins es)
  search_place (some a) ins es = start_at (find a es) a ins es

  insert_events : Option ℕ → Event C → List (Event C) → Option (List (Event C))
  unfolding search_place
  insert_events last ins [] = some (ins ∷ [])
  insert_events last ins (h ∷ es) =
      if leb ins.deadline h.deadline then some (ins ∷ h ∷ es) else search_place last ins (h ∷ es)

  -- `InsertQ`, with the address `a` of the new node: the queue and the deadline.
  unfoldable pub insert_q : ℕ → EventQueue C → ℕ → ℕ → C → Option (EventQueue C × ℕ)
  unfolding insert_events event
  insert_q a q tod delay callback =
      let ins = event a tod delay callback in
      elim (insert_events q.last_ins ins q.events) [
        | none ↦ none
        | some es ↦ some (record { events = es; last_ins = some a }, ins.deadline)
      ]

  head_addr : List (Event C) → Option ℕ
  head_addr [] = none
  head_addr (e ∷ es) = some e.addr

  -- `RemoveHead`: nothing happens to an empty queue.
  unfoldable pub remove_head : EventQueue C → EventQueue C
  unfolding head_addr points_at
  remove_head q = elim q.events [
    | [] ↦ q
    | p ∷ ps ↦ record {
      events = ps;
      last_ins = if points_at q.last_ins p.addr then head_addr ps else q.last_ins;
    }
  ]
