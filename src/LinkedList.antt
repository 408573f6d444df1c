-- ===== src/LinkedList.antt =====
-- inc/list.hpp: `hce::list<T>`, a singly linked list with a pointer to its last node. The store maps the
-- address of a node to the node, or to nothing where it is raw memory; `nullptr` is `none`. The
-- address of a new node is an argument: it is what the allocator returned. A read or write through a
-- pointer to no node, which is undefined, changes nothing here.
pub mod Chain
pub mod Refine
pub mod Copy
mod Tests
use hermesconcurrencyengine.Common.{
  ℕ, zero, suc, ◌+◌, Bool, true, false, Option, none, some, List, [], ◌∷◌, ◌==◌, if◌then◌else◌,
  add_size, decrement,
}

pub record Node (A : Type 0) : Type 0 where
  pub value : A
  pub next : Option ℕ

pub record LinkedList : Type 0 where
  pub head : Option ℕ
  pub tail : Option ℕ
  pub size : ℕ

abbrev pub Store : Type 0 → Type 0
Store A = ℕ → Option (Node A)

-- A list, and the store with its nodes.
pub record Changed (A : Type 0) : Type 0 where
  pub store : Store A
  pub list : LinkedList

pub record Joined (A : Type 0) : Type 0 where
  pub store : Store A
  pub list : LinkedList
  pub rhs : LinkedList

pub make : LinkedList
make = record { head = none; tail = none; size = 0 }

module _ {A : Type 0} where
  pub write : Store A → ℕ → Option (Node A) → Store A
  write h p n q = if q == p then n else h q

  -- `p->next = next`
  pub set_next : Store A → Option ℕ → Option ℕ → Store A
  set_next h none next = h
  set_next h (some p) next = elim (h p) [
    | none ↦ h
    | some n ↦ write h p (some (record n { next = next }))
  ]

  pub front : Store A → LinkedList → Option A
  front h l = elim l.head [
    | none ↦ none
    | some p ↦ elim (h p) [ none ↦ none | some n ↦ some n.value ]
  ]

  pub emplace_back : Store A → LinkedList → ℕ → A → Changed A
  emplace_back h l p a =
      let constructed = write h p (some (record { value = a; next = none })) in
      elim (l.size == 0) [
        | true ↦ record {
          store = constructed;
          list = record { head = some p; tail = some p; size = add_size l.size 1 };
        }
        | false ↦ record {
          store = set_next constructed l.tail (some p);
          list = record l { tail = some p; size = add_size l.size 1 };
        }
      ]

  pub emplace_front : Store A → LinkedList → ℕ → A → Changed A
  emplace_front h l p a = elim (l.size == 0) [
    | true ↦ record {
      store = write h p (some (record { value = a; next = none }));
      list = record { head = some p; tail = some p; size = add_size l.size 1 };
    }
    | false ↦ record {
      store = write h p (some (record { value = a; next = l.head }));
      list = record l { head = some p; size = add_size l.size 1 };
    }
  ]

  -- The node is destroyed, and its memory given back; `tail_` stays.
  pub pop : Store A → LinkedList → Changed A
  pop h l = elim l.head [
    | none ↦ record { store = h; list = l }
    | some p ↦ elim (h p) [
      | none ↦ record { store = h; list = l }
      | some n ↦ record {
        store = write h p none;
        list = record l { head = n.next; size = decrement l.size };
      }
    ]
  ]

  -- `concatenate` of two lists with one store.
  pub concatenate : Store A → LinkedList → LinkedList → Joined A
  concatenate h l rhs = elim (rhs.size == 0) [
    | true ↦ record { store = h; list = l; rhs = rhs }
    | false ↦ elim (l.size == 0) [
      | true ↦ record { store = h; list = rhs; rhs = l }
      | false ↦ record {
        store = set_next h l.tail rhs.head;
        list = record { head = l.head; tail = rhs.tail; size = add_size l.size rhs.size };
        rhs = make;
      }
    ]
  ]

module _ {A : Type 0} where
  -- The loop of `copy_` from the node `rhs_head`; `addresses` are those that the allocator returns.
  -- `none` where it asks for another address, or reads no node.
  unfoldable pub copy_loop : List ℕ → Store A → LinkedList → Option ℕ → Option (Changed A)
  unfolding emplace_back
  copy_loop addresses h l none = some (record { store = h; list = l })
  copy_loop [] h l (some rhs_head) = none
  copy_loop (p ∷ ps) h l (some rhs_head) = elim (h rhs_head) [
    | none ↦ none
    | some n ↦
        let r = emplace_back h l p n.value in
        elim (r.store rhs_head) [
          | none ↦ none
          | some later ↦ copy_loop ps r.store r.list later.next
        ]
  ]

  -- `operator=(const list&)`, and the copy constructor, which starts from an empty list.
  unfoldable pub copy_assign : List ℕ → Store A → LinkedList → LinkedList → Option (Changed A)
  copy_assign addresses h l rhs = copy_loop addresses h l rhs.head

  unfoldable pub copy_construct : List ℕ → Store A → LinkedList → Option (Changed A)
  unfolding make copy_assign
  copy_construct addresses h rhs = copy_assign addresses h make rhs

  -- The loop of the destructor from the node `cur`, for at most this many nodes: `none` where there are
  -- more, or `cur` is no node.
  unfoldable pub destroy_loop : ℕ → Store A → Option ℕ → Option (Store A)
  unfolding write
  destroy_loop fuel h none = some h
  destroy_loop zero h (some cur) = none
  destroy_loop (suc fuel) h (some cur) = elim (h cur) [
    | none ↦ none
    | some old ↦ destroy_loop fuel (write h cur none) old.next
  ]
