-- ===== src/LinkedList/Chain.antt =====
-- Chains of nodes in the store of inc/list.hpp.
use hermesconcurrencyengine.Common.{
  ℕ, ◌≡◌, ◌≢◌, refl, sym, subst, ◌∙◌, Option, none, some, List, [], ◌∷◌, ◌++◌, All, arith,
}
use hermesconcurrencyengine.LinkedList.{Node, Store, write, set_next}

-- A node's address and value.
pub record Cell (A : Type 0) : Type 0 where
  pub address : ℕ
  pub value : A

module _ {A : Type 0} where
  abbrev pub first : List (Cell A) → Option ℕ
  first [] = none
  first (c ∷ cs) = some c.address

  abbrev pub last : Cell A → List (Cell A) → Cell A
  last c [] = c
  last c (d ∷ cs) = last d cs

  -- Every cell is a node whose `next` is the following cell, and the last one's `nullptr`.
  abbrev pub Linked : Store A → List (Cell A) → Type 0
  Linked h [] = Unit {0}
  Linked h (c ∷ cs) =
      (h c.address ≡ some (record { value = c.value; next = first cs })) × Linked h cs

  -- No cell at this address.
  abbrev pub Free : ℕ → List (Cell A) → Type 0
  Free p cs = All (λ (c : Cell A). p ≢ c.address) cs

  abbrev pub Distinct : List (Cell A) → Type 0
  Distinct [] = Unit {0}
  Distinct (c ∷ cs) = Free c.address cs × Distinct cs

  abbrev pub Apart : List (Cell A) → List (Cell A) → Type 0
  Apart cs ds = All (λ (c : Cell A). Free c.address ds) cs

  pub write-eq : (h : Store A) (p : ℕ) (n : Option (Node A)) → write h p n p ≡ n
  unfolding write
  write-eq h p n = ground arith

  pub write-ne : (h : Store A) (p q : ℕ) (n : Option (Node A)) → p ≢ q → write h p n q ≡ h q
  unfolding write
  write-ne h p q n e = ground arith

  pub Linked-write :
      (h : Store A) (p : ℕ) (n : Option (Node A)) (cs : List (Cell A))
      → Linked h cs
      → Free p cs
      → Linked (write h p n) cs
  Linked-write h p n [] v f = tt
  Linked-write h p n (c ∷ cs) v f =
      (write-ne h p c.address n f.0 ∙ v.0, Linked-write h p n cs v.1 f.1)

  last-Free : (p : ℕ) (c : Cell A) (cs : List (Cell A)) → Free p (c ∷ cs) → p ≢ (last c cs).address
  last-Free p c [] f = f.0
  last-Free p c (d ∷ cs) f = last-Free p d cs f.1

  last-node :
      (h : Store A) (c : Cell A) (cs : List (Cell A))
      → Linked h (c ∷ cs)
      → h (last c cs).address ≡ some (record { value = (last c cs).value; next = none })
  last-node h c [] v = v.0
  last-node h c (d ∷ cs) v = last-node h d cs v.1

  -- The node after the last of one chain becomes the first of another.
  write-last :
      (h : Store A) (c : Cell A) (cs ds : List (Cell A))
      → Linked h (c ∷ cs)
      → Linked h ds
      → Distinct (c ∷ cs)
      → Apart (c ∷ cs) ds
      → Linked
          (write h
            (last c cs).address
            (some (record { value = (last c cs).value; next = first ds })))
          ((c ∷ cs) ++ ds)
  write-last h c [] ds v w d a = (
    write-eq h c.address (some (record { value = c.value; next = first ds })),
    Linked-write h c.address (some (record { value = c.value; next = first ds })) ds w a.0,
  )
  write-last h c (e ∷ cs) ds v w d a =
      let n : Option (Node A) = some (record { value = (last e cs).value; next = first ds }) in
      let apart : (last e cs).address ≢ c.address = λ q. last-Free c.address e cs d.0 (sym q) in
      (write-ne h (last e cs).address c.address n apart ∙ v.0, write-last h e cs ds v.1 w d.1 a.1)

  set_next-eq :
      (h : Store A) (p : ℕ) (o : Option ℕ) (n : Node A)
      → h p ≡ some n
      → set_next h (some p) o ≡ write h p (some (record n { next = o }))
  unfolding set_next
  set_next-eq h p o n e = rw (e, set_next) refl

  pub set_next-Linked :
      (h : Store A) (c : Cell A) (cs ds : List (Cell A))
      → Linked h (c ∷ cs)
      → Linked h ds
      → Distinct (c ∷ cs)
      → Apart (c ∷ cs) ds
      → Linked (set_next h (some (last c cs).address) (first ds)) ((c ∷ cs) ++ ds)
  set_next-Linked h c cs ds v w d a =
      subst (λ k. Linked k ((c ∷ cs) ++ ds))
        (sym (
          set_next-eq h (last c cs).address (first ds)
            (record { value = (last c cs).value; next = none }) (last-node h c cs v)))
        (write-last h c cs ds v w d a)

  pub Free-append : (p : ℕ) (cs ds : List (Cell A)) → Free p cs → Free p ds → Free p (cs ++ ds)
  Free-append p [] ds f g = g
  Free-append p (c ∷ cs) ds f g = (f.0, Free-append p cs ds f.1 g)

  pub Distinct-append :
      (cs ds : List (Cell A)) → Distinct cs → Distinct ds → Apart cs ds → Distinct (cs ++ ds)
  Distinct-append [] ds v w a = w
  Distinct-append (c ∷ cs) ds v w a =
      (Free-append c.address cs ds v.0 a.0, Distinct-append cs ds v.1 w a.1)

  pub last-append :
      (c : Cell A) (cs : List (Cell A)) (d : Cell A) (ds : List (Cell A))
      → last c (cs ++ d ∷ ds) ≡ last d ds
  last-append c [] d ds = refl
  last-append c (e ∷ cs) d ds = last-append e cs d ds
