-- ===== src/Identifier/Refine.antt =====
-- What identifiers of inc/id.hpp promise: each `make` gives one that was never there before, although
-- the addresses of bytes come again.
use hermesconcurrencyengine.Common.{
  ℕ, zero, suc, ◌+◌, Bool, Option, none, some, List, [], ◌∷◌, ◌++◌, ◌≡◌, refl, sym, ap, ap₂, ◌∙◌,
  set,
}
use hermesconcurrencyengine.Identifier.{
  Identifiers, Replaced, no_objects, replace, byte_at, let_go, put, put_from, taken_from,
  assigned_from, make, make_byte, reset, assign, construct, copy_construct, move_construct,
  move_assign, destroy, step, Call, constructs, makes, resets, copies, assigns, moves, move_assigns,
  destroys,
}
use hermesconcurrencyengine.Identifier.Sharing.{
  IsFresh, Allowed, Reach, here, then_call, replace-byte_at, behind-old,
}
use hermesconcurrencyengine.Identifier.Distinct.{let_go-objects}

-- What an object holds, if anything.
abbrev pub held_at : {B : Type 0} → List (Option B) → ℕ → Option B
held_at [] i = none
held_at (o ∷ os) zero = o
held_at (o ∷ os) (suc i) = held_at os i

-- What a call does to the objects, where `new` is what `make` gives.
abbrev pub act : {B : Type 0} → Option B → List (Option B) → Call → List (Option B)
act new os constructs = os ++ none ∷ []
act new os (makes i address) = set os i new
act new os (resets i) = set os i none
act new os (copies j) = os ++ held_at os j ∷ []
act new os (assigns i j) = set os i (held_at os j)
act new os (moves j) = set os j none ++ held_at os j ∷ []
act new os (move_assigns i j) = set (set os j none) i (held_at os j)
act new os (destroys i) = set os i none

-- Objects that hold numbers, each of which is given once.
pub record Numbers : Type 0 where
  pub objects : List (Option ℕ)
  pub next : ℕ

abbrev pub number : Numbers → Call → Numbers
number q c = record { objects = act (some q.next) q.objects c; next = q.next + 1 }

-- The same calls on identifiers and on numbers, where `make` gets a byte that is not in use.
pub data Run (unique : Bool) : Identifiers → Numbers → Type 0 where
  none_yet : Run unique no_objects (record { objects = []; next = 0 })
  then_both :
      (p : Identifiers) (q : Numbers) (c : Call) (next : Identifiers)
      → Run unique p q
      → Allowed unique c
      → IsFresh p c
      → step p c ≡ some next
      → Run unique next (number q c)

pub Run-Reach : {unique : Bool} {p : Identifiers} {q : Numbers} → Run unique p q → Reach unique p
Run-Reach none_yet = here
Run-Reach (then_both p q c next r a f e) = then_call p c next (Run-Reach r) a f e

pub held_at-byte_at : (os : List (Option ℕ)) (i : ℕ) → held_at os i ≡ byte_at os i
held_at-byte_at [] i = refl
held_at-byte_at (o ∷ os) zero = refl
held_at-byte_at (o ∷ os) (suc i) = held_at-byte_at os i

replace-set :
    (os : List (Option ℕ)) (i : ℕ) (v : Option ℕ) {r : Replaced}
    → replace os i v ≡ some r
    → r.next ≡ set os i v
unfolding replace
replace-set [] i v e = cc
replace-set (o ∷ os) zero v e = cc
replace-set (o ∷ os) (suc i) v e =
    let (q, same, old, next) = behind-old o (replace os i v) e in
    next ∙ ap (λ l. o ∷ l) (replace-set os i v same)

module _ (p : Identifiers) {next : Identifiers} where
  put_from-set :
      (x : Option Replaced) (os : List (Option ℕ))
      → ((r : Replaced) → x ≡ some r → r.next ≡ os)
      → put_from x p ≡ some next
      → next.objects ≡ os
  put_from-set none os h e = cc
  put_from-set (some r) os h e =
      let same : let_go r.old (record p { objects = r.next }) ≡ next = cc in
      ap (λ (x : Identifiers). x.objects) (sym same)
      ∙ let_go-objects r.old (record p { objects = r.next })
      ∙ h r refl

  put-set : (i : ℕ) (v : Option ℕ) → put i v p ≡ some next → next.objects ≡ set p.objects i v
  unfolding put
  put-set i v e =
      put_from-set (replace p.objects i v) (set p.objects i v) (λ r f. replace-set p.objects i v f)
        e

  taken_from-set :
      (x : Option Replaced) (j : ℕ)
      → x ≡ replace p.objects j none
      → taken_from x p ≡ some next
      → next.objects ≡ set p.objects j none ++ held_at p.objects j ∷ []
  taken_from-set none j h e = cc
  taken_from-set (some r) j h e =
      let moved = replace-set p.objects j none (sym h) in
      let old = replace-byte_at p.objects j none (sym h) in
      let same : record p { objects = r.next ++ r.old ∷ [] } ≡ next = cc in
      ap (λ (x : Identifiers). x.objects) (sym same)
      ∙ ap₂ (λ l o. l ++ o ∷ []) moved (old ∙ sym (held_at-byte_at p.objects j))

assigned_from-set :
    (p : Identifiers) {next : Identifiers} (i : ℕ) (x : Option Replaced) (j : ℕ)
    → x ≡ replace p.objects j none
    → assigned_from i x p ≡ some next
    → next.objects ≡ set (set p.objects j none) i (held_at p.objects j)
assigned_from-set p i none j h e = cc
assigned_from-set p i (some r) j h e =
    let moved = replace-set p.objects j none (sym h) in
    let old = replace-byte_at p.objects j none (sym h) in
    put-set (record p { objects = r.next }) i r.old e
    ∙ ap₂ (λ l o. set l i o) moved (old ∙ sym (held_at-byte_at p.objects j))

abbrev pub address_of : Call → Option ℕ
address_of (makes i address) = some address
address_of constructs = none
address_of (resets i) = none
address_of (copies j) = none
address_of (assigns i j) = none
address_of (moves j) = none
address_of (move_assigns i j) = none
address_of (destroys i) = none

pub step-act :
    (p : Identifiers) (c : Call) {next : Identifiers}
    → step p c ≡ some next
    → next.objects ≡ act (address_of c) p.objects c
unfolding step make reset construct copy_construct assign move_construct move_assign destroy
step-act p constructs {next} e =
    let same : record p { objects = p.objects ++ none ∷ [] } ≡ next = cc in
    ap (λ (x : Identifiers). x.objects) (sym same)
step-act p (makes i a) e = put-set (make_byte a p) i (some a) e
step-act p (resets i) e = put-set p i none e
step-act p (copies j) {next} e =
    let same : record p { objects = p.objects ++ byte_at p.objects j ∷ [] } ≡ next = cc in
    ap (λ (x : Identifiers). x.objects) (sym same)
    ∙ ap (λ o. p.objects ++ o ∷ []) (sym (held_at-byte_at p.objects j))
step-act p (assigns i j) e =
    put-set p i (byte_at p.objects j) e ∙ ap (set p.objects i) (sym (held_at-byte_at p.objects j))
step-act p (moves j) e = taken_from-set p (replace p.objects j none) j refl e
step-act p (move_assigns i j) e = assigned_from-set p i (replace p.objects j none) j refl e
step-act p (destroys i) e = put-set p i none e
