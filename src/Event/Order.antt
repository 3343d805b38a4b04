-- ===== src/Event/Order.antt =====
-- Sorted queues with distinct addresses and a live pointer to the last insertion.
use uriscv.Prelude.{
  ℕ, ◌≤◌, ◌≡◌, refl, Option, none, some, List, [], ◌∷◌, ◌==◌, if◌then◌else◌, arith,
}
use uriscv.Event.{Event, EventQueue, find, place, insert_from, insert_at}

module _ {C : Type 0} where
  -- Deadlines rise along the list, from `d` on.
  abbrev pub SortedFrom : ℕ → List (Event C) → Type 0
  SortedFrom d [] = Unit {0}
  SortedFrom d (e ∷ es) = (d ≤ e.deadline) × SortedFrom e.deadline es

  abbrev pub Distinct : List (Event C) → Type 0
  Distinct [] = Unit {0}
  Distinct (e ∷ es) = (find e.addr es ≡ none) × Distinct es

  -- The pointer is null on an empty queue only, and else points at a node.
  abbrev pub Points : Option ℕ → List (Event C) → Type 0
  Points none es = es ≡ []
  Points (some a) es = (e : Event C) × (find a es ≡ some e)

  pub record IsQueue (q : EventQueue C) : Type 0 where
    pub sorted : SortedFrom 0 q.events
    pub distinct : Distinct q.events
    pub live : Points q.last_ins q.events

  pub SortedFrom-place :
      (d : ℕ) (ins : Event C) (es : List (Event C))
      → d ≤ ins.deadline
      → SortedFrom d es
      → SortedFrom d (place ins es)
  unfolding place
  SortedFrom-place d ins [] h s = (h, tt)
  SortedFrom-place d ins (e ∷ es) h s = ground (arith, SortedFrom-place e.deadline ins es)

  -- Placing a node does not hide or add another.
  pub find-place :
      (a : ℕ) (ins : Event C) (es : List (Event C))
      → find ins.addr es ≡ none
      → find a (place ins es) ≡ (if ins.addr == a then some ins else find a es)
  unfolding place
  find-place a ins [] h = refl
  find-place a ins (e ∷ es) h = ground (arith, find-place a ins es)

  pub Distinct-place :
      (ins : Event C) (es : List (Event C))
      → find ins.addr es ≡ none
      → Distinct es
      → Distinct (place ins es)
  unfolding place
  Distinct-place ins [] h d = (refl, tt)
  Distinct-place ins (e ∷ es) h d = ground (arith, Distinct-place ins es, find-place e.addr ins es)

  -- A node found in a sorted list is due no earlier than its start.
  pub find-le :
      (d a : ℕ) (es : List (Event C)) (l : Event C)
      → SortedFrom d es
      → find a es ≡ some l
      → d ≤ l.deadline
  find-le d a [] l s h = cc
  find-le d a (e ∷ es) l s h = ground (arith, find-le e.deadline a es l)

  -- The search from a node that is due no later than `ins` ends where the search from the head does.
  pub insert_at-eq-place :
      (d a : ℕ) (ins : Event C) (es : List (Event C)) (l : Event C)
      → SortedFrom d es
      → find a es ≡ some l
      → l.deadline ≤ ins.deadline
      → insert_at a ins es ≡ place ins es
  unfolding insert_at insert_from place
  insert_at-eq-place d a ins [] l s h le = cc
  insert_at-eq-place d a ins (e ∷ es) l s h le =
      ground (arith, insert_at-eq-place e.deadline a ins es l, find-le e.deadline a es l)
