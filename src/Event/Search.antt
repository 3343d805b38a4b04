-- ===== src/Event/Search.antt =====
-- `InsertQ` against a search from the head, and the queue through `InsertQ` and `RemoveHead`.
use uriscv.Prelude.{
  ℕ, ◌+◌, ◌%◌, ◌^◌, ◌≤◌, ◌≡◌, refl, Option, none, some, List, [], ◌∷◌, leb, ◌==◌, if◌then◌else◌,
  arith, inl, inr, Bool-cases,
}
use uriscv.Event.{
  Event, EventQueue, event, find, place, insert_from, search_place, insert_events, insert_q,
  points_at, head_addr, remove_head,
}
use uriscv.Event.Order.{
  SortedFrom, Distinct, Points, IsQueue, SortedFrom-place, find-place, Distinct-place,
  insert_at-eq-place,
}

module _ {C : Type 0} where
  -- Where a node belongs, by a search from the head alone.
  abbrev pub in_order : Event C → List (Event C) → List (Event C)
  in_order ins [] = ins ∷ []
  in_order ins (h ∷ es) = if leb ins.deadline h.deadline then ins ∷ h ∷ es else place ins (h ∷ es)

  insert_from-eq-place :
      (ins h : Event C) (es : List (Event C))
      → h.deadline ≤ ins.deadline
      → insert_from ins (h ∷ es) ≡ place ins (h ∷ es)
  unfolding insert_from place
  insert_from-eq-place ins h es le = ground arith

  search_place-eq :
      (last : Option ℕ) (ins h : Event C) (es : List (Event C))
      → SortedFrom 0 (h ∷ es)
      → Points last (h ∷ es)
      → h.deadline ≤ ins.deadline
      → search_place last ins (h ∷ es) ≡ some (place ins (h ∷ es))
  unfolding search_place
  search_place-eq none ins h es s p le = cc
  search_place-eq (some a) ins h es s (l, found) le =
      rw found (
        ground
          (arith, insert_from-eq-place ins h es, insert_at-eq-place 0 a ins (h ∷ es) l s found))

  insert_events-eq :
      (last : Option ℕ) (ins : Event C) (es : List (Event C))
      → SortedFrom 0 es
      → Points last es
      → insert_events last ins es ≡ some (in_order ins es)
  unfolding insert_events
  insert_events-eq last ins [] s p = refl
  insert_events-eq last ins (h ∷ es) s p = ground (arith, search_place-eq last ins h es s p)

  -- On a queue in order, `InsertQ` never follows a dangling pointer, and its shortcut by the last
  -- insertion puts the new event where the search from the head would.
  pub insert_q-eq-in_order :
      (a : ℕ) (q : EventQueue C) (tod delay : ℕ) (callback : C)
      → IsQueue q
      → insert_q a q tod delay callback
        ≡ some (
          record { events = in_order (event a tod delay callback) q.events; last_ins = some a },
          (tod + delay) % 2 ^ 64,
        )
  unfolding insert_q
  insert_q-eq-in_order a q tod delay callback v =
      rw
        (
          insert_events-eq q.last_ins (event a tod delay callback) q.events v.sorted v.live,
          insert_q,
        )
        (unfold event in refl)

  SortedFrom-in_order :
      (ins : Event C) (es : List (Event C)) → SortedFrom 0 es → SortedFrom 0 (in_order ins es)
  SortedFrom-in_order ins [] s = omega arith
  SortedFrom-in_order ins (h ∷ es) s = ground (arith, SortedFrom-place 0 ins (h ∷ es))

  Distinct-in_order :
      (ins : Event C) (es : List (Event C))
      → find ins.addr es ≡ none
      → Distinct es
      → Distinct (in_order ins es)
  Distinct-in_order ins [] f d = (refl, tt)
  Distinct-in_order ins (h ∷ es) f d = ground (arith, Distinct-place ins (h ∷ es))

  find-in_order :
      (ins : Event C) (es : List (Event C))
      → find ins.addr es ≡ none
      → find ins.addr (in_order ins es) ≡ some ins
  find-in_order ins [] f = ground arith
  find-in_order ins (h ∷ es) f = ground (arith, find-place ins.addr ins (h ∷ es))

  -- A new node at a fresh address leaves a queue in order.
  pub insert_q-IsQueue :
      (a : ℕ) (q : EventQueue C) (tod delay : ℕ) (callback : C)
      → IsQueue q
      → find a q.events ≡ none
      → (r : EventQueue C) × (d : ℕ) × (insert_q a q tod delay callback ≡ some (r, d)) × IsQueue r
  insert_q-IsQueue a q tod delay callback v fresh =
      let ins = event a tod delay callback in
      (
        record { events = in_order ins q.events; last_ins = some a },
        (tod + delay) % 2 ^ 64,
        insert_q-eq-in_order a q tod delay callback v,
        record {
          sorted = SortedFrom-in_order ins q.events v.sorted;
          distinct = unfold event in Distinct-in_order ins q.events fresh v.distinct;
          live = (ins, unfold event in find-in_order ins q.events fresh);
        },
      )

  Points-tail :
      (last : Option ℕ) (e : Event C) (es : List (Event C))
      → Points last (e ∷ es)
      → Points (if points_at last e.addr then head_addr es else last) es
  unfolding points_at head_addr
  Points-tail none e es p = cc
  Points-tail (some b) e [] (l, found) = elim (Bool-cases (b == e.addr)) [
    | inl hit ↦ rw hit refl
    | inr miss ↦ absurd (ground arith)
  ]
  Points-tail (some b) e (f ∷ es) (l, found) = elim (Bool-cases (b == e.addr)) [
    | inl hit ↦ rw hit (f, ground arith)
    | inr miss ↦ rw miss (l, ground arith)
  ]

  SortedFrom-weaken : (d : ℕ) (es : List (Event C)) → SortedFrom d es → SortedFrom 0 es
  SortedFrom-weaken d [] s = tt
  SortedFrom-weaken d (e ∷ es) s = (omega arith, s.1)

  remove-IsQueue :
      (last : Option ℕ) (es : List (Event C))
      → IsQueue (record { events = es; last_ins = last })
      → IsQueue (remove_head (record { events = es; last_ins = last }))
  unfolding remove_head
  remove-IsQueue last [] v = v
  remove-IsQueue last (e ∷ es) v = record {
    sorted = SortedFrom-weaken e.deadline es v.sorted.1;
    distinct = v.distinct.1;
    live = Points-tail last e es v.live;
  }

  -- Removing the head leaves a queue in order, the pointer to the last insertion live.
  pub remove_head-IsQueue : (q : EventQueue C) → IsQueue q → IsQueue (remove_head q)
  remove_head-IsQueue q v = remove-IsQueue q.last_ins q.events v
