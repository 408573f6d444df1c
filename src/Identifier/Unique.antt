-- ===== src/Identifier/Unique.antt =====
-- `uid` of inc/id.hpp: without copies a byte has one owner.
use hermesconcurrencyengine.Common.{
  ℕ, ◌+◌, ◌≤◌, true, Option, none, some, WhenSome, List, ◌∷◌, ◌≡◌, refl, subst, ap, is_same, count,
  arith,
}
use hermesconcurrencyengine.Identifier.{
  Identifiers, Replaced, replace, holds, use_count, let_go, put, put_from, taken_from,
  assigned_from, make, reset, assign, construct, copy_construct, move_construct, move_assign,
  destroy, step, Call, constructs, makes, resets, copies, assigns, moves, move_assigns, destroys,
}
use hermesconcurrencyengine.Identifier.Sharing.{
  Reach, here, then_call, Allowed, Counted, IsFresh, Reach-Counted, replace-use_count,
  use_count-append,
}
use hermesconcurrencyengine.Identifier.Distinct.{let_go-objects}

abbrev pub Single : Identifiers → Type 0
Single p = (b : ℕ) → use_count b p.objects ≤ 1

abbrev HeldOnce : Option Replaced → Type 0
HeldOnce x = (r : Replaced) → x ≡ some r → (b : ℕ) → use_count b r.next + holds b r.old ≤ 1

replace-HeldOnce :
    (os : List (Option ℕ)) (i : ℕ) (v : Option ℕ)
    → ((b : ℕ) → use_count b os + holds b v ≤ 1)
    → HeldOnce (replace os i v)
replace-HeldOnce os i v h r e b = omega (arith, h b, replace-use_count b os i v e)

put_from-Single :
    (x : Option Replaced) (p : Identifiers) → HeldOnce x → WhenSome Single (put_from x p)
put_from-Single none p h = tt
put_from-Single (some r) p h = λ b.
    let same : use_count b (let_go r.old (record p { objects = r.next })).objects
        ≡ use_count b r.next =
      ap (use_count b) (let_go-objects r.old (record p { objects = r.next })) in
    omega (arith, same, h r refl b)

put-Single :
    (i : ℕ) (v : Option ℕ) (p : Identifiers)
    → ((b : ℕ) → use_count b p.objects + holds b v ≤ 1)
    → WhenSome Single (put i v p)
unfolding put
put-Single i v p h = put_from-Single (replace p.objects i v) p (replace-HeldOnce p.objects i v h)

taken_from-Single :
    (x : Option Replaced) (p : Identifiers) → HeldOnce x → WhenSome Single (taken_from x p)
taken_from-Single none p h = tt
taken_from-Single (some r) p h = λ b. omega (arith, h r refl b, use_count-append b r.next r.old)

assigned_from-Single :
    (i : ℕ) (x : Option Replaced) (p : Identifiers)
    → HeldOnce x
    → WhenSome Single (assigned_from i x p)
assigned_from-Single i none p h = tt
assigned_from-Single i (some r) p h = put-Single i r.old (record p { objects = r.next }) (h r refl)

fresh-Single :
    (p : Identifiers) (a : ℕ)
    → Counted p
    → count a p.bytes ≡ 0
    → Single p
    → (b : ℕ) → use_count b p.objects + is_same b a ≤ 1
fresh-Single p a c f s b = ground (arith, c a, f, s b)

step-Single :
    (p : Identifiers) (c : Call)
    → Allowed true c
    → IsFresh p c
    → Counted p
    → Single p
    → WhenSome Single (step p c)
unfolding step make reset construct copy_construct assign move_construct move_assign destroy
step-Single p constructs a f c s = λ b. omega (arith, s b, use_count-append b p.objects none)
step-Single p (makes i address) a f c s =
    put-Single i (some address) (record p { bytes = address ∷ p.bytes })
      (fresh-Single p address c f s)
step-Single p (resets i) a f c s = put-Single i none p (λ b. omega (arith, s b))
step-Single p (copies j) a f c s = absurd (ground (arith, a))
step-Single p (assigns i j) a f c s = absurd (ground (arith, a))
step-Single p (moves j) a f c s =
    taken_from-Single (replace p.objects j none) p
      (replace-HeldOnce p.objects j none (λ b. omega (arith, s b)))
step-Single p (move_assigns i j) a f c s =
    assigned_from-Single i (replace p.objects j none) p
      (replace-HeldOnce p.objects j none (λ b. omega (arith, s b)))
step-Single p (destroys i) a f c s = put-Single i none p (λ b. omega (arith, s b))

-- After any calls other than copies, in which each `make` gets a byte that is not in use, at most one
-- object holds a byte.
pub Reach-Single : {p : Identifiers} → Reach true p → Single p
Reach-Single here = λ b. omega arith
Reach-Single (then_call p c next r a f e) =
    subst (WhenSome Single) e (step-Single p c a f (Reach-Counted r) (Reach-Single r))
