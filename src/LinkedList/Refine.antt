-- ===== src/LinkedList/Refine.antt =====
-- The list of inc/list.hpp and the sequence of its nodes.
use hermesconcurrencyengine.Common.{
  ℕ, ◌+◌, ◌<◌, ◌^◌, ◌≡◌, refl, sym, subst, ap, ◌∙◌, Option, none, some, List, [], ◌∷◌, ◌++◌, length,
  length-append, append-nil, arith, add_size, decrement,
}
use hermesconcurrencyengine.LinkedList.{
  Node, Store, LinkedList, write, set_next, front, emplace_back, emplace_front, pop, concatenate,
  make,
}
use hermesconcurrencyengine.LinkedList.Chain.{
  Cell, first, last, Linked, Free, Distinct, Apart, write-eq, Linked-write, set_next-Linked,
  Distinct-append, last-append,
}

module _ {A : Type 0} where
  -- An empty list may keep an old `tail_`.
  abbrev pub EndsAt : LinkedList → List (Cell A) → Type 0
  EndsAt l [] = Unit {0}
  EndsAt l (c ∷ cs) = l.tail ≡ some (last c cs).address

  -- The nodes of the list, in order.
  pub record IsList (h : Store A) (l : LinkedList) (cs : List (Cell A)) : Type 0 where
    pub starts : l.head ≡ first cs
    pub ends : EndsAt l cs
    pub sized : l.size ≡ length cs
    pub small : length cs < 2 ^ 64
    pub linked : Linked h cs
    pub distinct : Distinct cs

  abbrev pub cell : ℕ → A → Cell A
  cell p a = record { address = p; value = a }

  Free→Apart : (p : ℕ) (a : A) (cs : List (Cell A)) → Free p cs → Apart cs (cell p a ∷ [])
  Free→Apart p a [] f = tt
  Free→Apart p a (c ∷ cs) f = ((λ e. f.0 (sym e), tt), Free→Apart p a cs f.1)

  -- If a list has the nodes `cs`, fewer than 2^64 - 1, and the address `p` is none of theirs, then
  -- `emplace_back` at `p` leaves a list with the nodes `cs` and then the new one.
  pub emplace_back-IsList :
      (h : Store A) (l : LinkedList) (cs : List (Cell A)) (p : ℕ) (a : A)
      → IsList h l cs
      → Free p cs
      → length cs + 1 < 2 ^ 64
      → let r = emplace_back h l p a in IsList r.store r.list (cs ++ cell p a ∷ [])
  unfolding emplace_back
  emplace_back-IsList h l [] p a v f room =
      let n : Option (Node A) = some (record { value = a; next = none }) in
      let went : emplace_back h l p a ≡ record {
        store = write h p n;
        list = record { head = some p; tail = some p; size = add_size l.size 1 };
      } =
        ground (arith, v.sized) in
      subst (λ r. IsList r.store r.list (cell p a ∷ [])) (sym went)
        (record {
          starts = refl;
          ends = refl;
          sized = omega (arith, v.sized);
          small = omega arith;
          linked = (write-eq h p n, tt);
          distinct = (tt, tt);
        })
  emplace_back-IsList h l (c ∷ cs) p a v f room =
      let n : Option (Node A) = some (record { value = a; next = none }) in
      let went : emplace_back h l p a ≡ record {
        store = set_next (write h p n) l.tail (some p);
        list = record l { tail = some p; size = add_size l.size 1 };
      } =
        ground (arith, v.sized) in
      let apart = Free→Apart p a (c ∷ cs) f in
      let chain =
        set_next-Linked (write h p n) c cs (cell p a ∷ []) (Linked-write h p n (c ∷ cs) v.linked f)
          (write-eq h p n, tt) v.distinct apart in
      subst (λ r. IsList r.store r.list ((c ∷ cs) ++ cell p a ∷ [])) (sym went)
        (record {
          starts = v.starts;
          ends = ap (λ (x : Cell A). some x.address) (sym (last-append c cs (cell p a) []));
          sized = omega (arith, v.sized, length-append cs (cell p a ∷ []));
          small = omega (arith, length-append cs (cell p a ∷ []));
          linked =
              subst (λ t. Linked (set_next (write h p n) t (some p)) ((c ∷ cs) ++ cell p a ∷ []))
                (sym v.ends) chain;
          distinct = Distinct-append (c ∷ cs) (cell p a ∷ []) v.distinct (tt, tt) apart;
        })

  -- If a list has the nodes `cs`, fewer than 2^64 - 1, and the address `p` is none of theirs, then
  -- `emplace_front` at `p` leaves a list with the new node and then `cs`.
  pub emplace_front-IsList :
      (h : Store A) (l : LinkedList) (cs : List (Cell A)) (p : ℕ) (a : A)
      → IsList h l cs
      → Free p cs
      → length cs + 1 < 2 ^ 64
      → let r = emplace_front h l p a in IsList r.store r.list (cell p a ∷ cs)
  unfolding emplace_front
  emplace_front-IsList h l [] p a v f room =
      let n : Option (Node A) = some (record { value = a; next = none }) in
      let went : emplace_front h l p a ≡ record {
        store = write h p n;
        list = record { head = some p; tail = some p; size = add_size l.size 1 };
      } =
        ground (arith, v.sized) in
      subst (λ r. IsList r.store r.list (cell p a ∷ [])) (sym went)
        (record {
          starts = refl;
          ends = refl;
          sized = omega (arith, v.sized);
          small = omega arith;
          linked = (write-eq h p n, tt);
          distinct = (tt, tt);
        })
  emplace_front-IsList h l (c ∷ cs) p a v f room =
      let n : Option (Node A) = some (record { value = a; next = l.head }) in
      let went : emplace_front h l p a ≡ record {
        store = write h p n;
        list = record l { head = some p; size = add_size l.size 1 };
      } =
        ground (arith, v.sized) in
      subst (λ r. IsList r.store r.list (cell p a ∷ c ∷ cs)) (sym went)
        (record {
          starts = refl;
          ends = v.ends;
          sized = omega (arith, v.sized);
          small = omega arith;
          linked = (
            write-eq h p n ∙ ap (λ o. some (record { value = a; next = o })) v.starts,
            Linked-write h p n (c ∷ cs) v.linked f,
          );
          distinct = (f, v.distinct);
        })

  tail_stays :
      (l m : LinkedList) (c : Cell A) (cs : List (Cell A))
      → m.tail ≡ l.tail
      → EndsAt l (c ∷ cs)
      → EndsAt m cs
  tail_stays l m c [] e v = tt
  tail_stays l m c (d ∷ cs) e v = e ∙ v

  -- If a list has the nodes `c` and then `cs`, then `front()` is the value of `c`, and `pop()`
  -- leaves a list with the nodes `cs`, and no node at the address of `c`.
  pub front-pop_list :
      (h : Store A) (l : LinkedList) (c : Cell A) (cs : List (Cell A))
      → IsList h l (c ∷ cs)
      → (front h l ≡ some c.value)
        × IsList (pop h l).store (pop h l).list cs
        × ((pop h l).store c.address ≡ none)
  unfolding front pop
  front-pop_list h l c cs v =
      let went : pop h l ≡ record {
        store = write h c.address none;
        list = record l { head = first cs; size = decrement l.size };
      } =
        rw (v.starts, v.linked.0, pop) refl in
      (
        rw (v.starts, v.linked.0, front) refl,
        subst (λ r. IsList r.store r.list cs) (sym went)
            (record {
              starts = refl;
              ends =
                  tail_stays l (record l { head = first cs; size = decrement l.size }) c cs refl
                    v.ends;
              sized = omega (arith, v.sized, v.small);
              small = omega (arith, v.small);
              linked = Linked-write h c.address none cs v.linked.1 v.distinct.0;
              distinct = v.distinct.1;
            }),
        subst (λ r. r.store c.address ≡ none) (sym went) (write-eq h c.address none),
      )

  pub make-IsList : (h : Store A) → IsList h make []
  unfolding make
  make-IsList h = record {
    starts = refl;
    ends = tt;
    sized = refl;
    small = omega arith;
    linked = tt;
    distinct = tt;
  }

  concatenate-left :
      (h : Store A) (l rhs : LinkedList)
      → l.size ≡ 0
      → 0 < rhs.size
      → concatenate h l rhs ≡ record { store = h; list = rhs; rhs = l }
  unfolding concatenate
  concatenate-left h l rhs e f = ground arith

  concatenate-both :
      (h : Store A) (l rhs : LinkedList)
      → 0 < l.size
      → 0 < rhs.size
      → concatenate h l rhs ≡ record {
        store = set_next h l.tail rhs.head;
        list = record { head = l.head; tail = rhs.tail; size = add_size l.size rhs.size };
        rhs = make;
      }
  unfolding concatenate
  concatenate-both h l rhs e f = ground arith

  -- If two lists in one store have the nodes `cs` and `ds`, none at the address of another and
  -- together fewer than 2^64, then `concatenate` leaves a list with the nodes `cs` and then `ds`,
  -- and an empty one.
  pub concatenate-IsList :
      (h : Store A) (l rhs : LinkedList) (cs ds : List (Cell A))
      → IsList h l cs
      → IsList h rhs ds
      → Apart cs ds
      → length cs + length ds < 2 ^ 64
      → let r = concatenate h l rhs in IsList r.store r.list (cs ++ ds) × IsList r.store r.rhs []
  unfolding concatenate
  concatenate-IsList h l rhs cs [] v w apart room =
      let went : concatenate h l rhs ≡ record { store = h; list = l; rhs = rhs } =
        ground (arith, w.sized) in
      subst (λ r. IsList r.store r.list (cs ++ []) × IsList r.store r.rhs []) (sym went)
        (subst (IsList h l) (sym (append-nil cs)) v, w)
  concatenate-IsList h l rhs [] (d ∷ ds) v w apart room =
      let went : concatenate h l rhs ≡ record { store = h; list = rhs; rhs = l } =
        concatenate-left h l rhs v.sized (omega (arith, w.sized)) in
      subst (λ r. IsList r.store r.list (d ∷ ds) × IsList r.store r.rhs []) (sym went) (w, v)
  concatenate-IsList h l rhs (c ∷ cs) (d ∷ ds) v w apart room =
      let went : concatenate h l rhs ≡ record {
        store = set_next h l.tail rhs.head;
        list = record { head = l.head; tail = rhs.tail; size = add_size l.size rhs.size };
        rhs = make;
      } =
        concatenate-both h l rhs (omega (arith, v.sized)) (omega (arith, w.sized)) in
      let chain = set_next-Linked h c cs (d ∷ ds) v.linked w.linked v.distinct apart in
      subst (λ r. IsList r.store r.list ((c ∷ cs) ++ d ∷ ds) × IsList r.store r.rhs []) (sym went)
        (
          record {
            starts = v.starts;
            ends = w.ends ∙ ap (λ (x : Cell A). some x.address) (sym (last-append c cs d ds));
            sized = omega (arith, v.sized, w.sized, length-append cs (d ∷ ds));
            small = omega (arith, length-append cs (d ∷ ds));
            linked =
                subst (λ t. Linked (set_next h t rhs.head) ((c ∷ cs) ++ d ∷ ds)) (sym v.ends)
                  (subst
                    (λ o. Linked (set_next h (some (last c cs).address) o) ((c ∷ cs) ++ d ∷ ds))
                    (sym w.starts) chain);
            distinct = Distinct-append (c ∷ cs) (d ∷ ds) v.distinct w.distinct apart;
          },
          make-IsList (set_next h l.tail rhs.head),
        )
