-- ===== src/Identifier/Sharing.antt =====
-- The bytes of the identifiers of inc/id.hpp over any run of operations.
use hermesconcurrencyengine.Common.{
  ℕ, zero, suc, ◌+◌, ◌-◌, ◌≤◌, Bool, true, false, Option, none, some, WhenSome, List, [], ◌∷◌, ◌++◌,
  ◌≡◌, refl, sym, subst, ap, ap₂, ◌∙◌, ◌==◌, is_same, count, arith,
}
use hermesconcurrencyengine.Identifier.{
  Identifiers, Replaced, no_objects, replace, behind, byte_at, holds, use_count, remove, let_go,
  put, put_from, taken_from, assigned_from, make, reset, assign, construct, copy_construct,
  move_construct, move_assign, destroy, step, Call, constructs, makes, resets, copies, assigns,
  moves, move_assigns, destroys,
}

abbrev used : ℕ → ℕ
used n = elim (n == 0) [ true ↦ 0 | false ↦ 1 ]

-- A byte is in use, once, if an object holds it, and else not at all.
abbrev pub Counted : Identifiers → Type 0
Counted p = (b : ℕ) → count b p.bytes ≡ used (use_count b p.objects)

-- `make` gets a byte that is not in use.
abbrev pub IsFresh : Identifiers → Call → Type 0
IsFresh p constructs = Unit
IsFresh p (makes i address) = count address p.bytes ≡ 0
IsFresh p (resets i) = Unit
IsFresh p (copies j) = Unit
IsFresh p (assigns i j) = Unit
IsFresh p (moves j) = Unit
IsFresh p (move_assigns i j) = Unit
IsFresh p (destroys i) = Unit

-- The calls on `sid` objects, and those on `uid` objects, which have no copies.
abbrev pub Allowed : Bool → Call → Type 0
Allowed unique constructs = Unit
Allowed unique (makes i address) = Unit
Allowed unique (resets i) = Unit
Allowed unique (copies j) = unique ≡ false
Allowed unique (assigns i j) = unique ≡ false
Allowed unique (moves j) = Unit
Allowed unique (move_assigns i j) = Unit
Allowed unique (destroys i) = Unit

-- What the calls lead to, on objects that are `unique` or not.
pub data Reach (unique : Bool) : Identifiers → Type 0 where
  here : Reach unique no_objects
  then_call :
      (p : Identifiers) (c : Call) (next : Identifiers)
      → Reach unique p
      → Allowed unique c
      → IsFresh p c
      → step p c ≡ some next
      → Reach unique next

pub behind-old :
    (o : Option ℕ) (x : Option Replaced) {r : Replaced}
    → behind o x ≡ some r
    → (q : Replaced) × (x ≡ some q) × (r.old ≡ q.old) × (r.next ≡ o ∷ q.next)
behind-old o none e = cc
behind-old o (some q) e = (q, refl, ground (arith, e), ground (arith, e))

pub replace-use_count :
    (b : ℕ) (os : List (Option ℕ)) (i : ℕ) (v : Option ℕ) {r : Replaced}
    → replace os i v ≡ some r
    → use_count b r.next + holds b r.old ≡ use_count b os + holds b v
unfolding replace
replace-use_count b [] i v e = cc
replace-use_count b (o ∷ os) zero v {r} e =
    let old : r.old ≡ o = cc in
    let next : r.next ≡ v ∷ os = cc in ap₂ (λ x y. use_count b x + holds b y) next old ∙ omega arith
replace-use_count b (o ∷ os) (suc i) v e =
    let (q, same, old, next) = behind-old o (replace os i v) e in
    ap₂ (λ x y. use_count b x + holds b y) next old ∙ omega (arith, replace-use_count b os i v same)

pub replace-byte_at :
    (os : List (Option ℕ)) (i : ℕ) (v : Option ℕ) {r : Replaced}
    → replace os i v ≡ some r
    → r.old ≡ byte_at os i
unfolding replace
replace-byte_at [] i v e = cc
replace-byte_at (o ∷ os) zero v e = cc
replace-byte_at (o ∷ os) (suc i) v e =
    let (q, same, old, next) = behind-old o (replace os i v) e in old ∙ replace-byte_at os i v same

pub use_count-append :
    (b : ℕ) (os : List (Option ℕ)) (o : Option ℕ)
    → use_count b (os ++ o ∷ []) ≡ use_count b os + holds b o
use_count-append b [] o = omega arith
use_count-append b (x ∷ os) o = omega (arith, use_count-append b os o)

remove-count : (b a : ℕ) (xs : List ℕ) → count b (remove a xs) ≡ count b xs - is_same b a
remove-count b a [] = omega arith
remove-count b a (x ∷ xs) = ground (arith, remove-count b a xs)

let_go-Counted :
    (old : Option ℕ) (p : Identifiers)
    → ((b : ℕ) → count b p.bytes ≡ used (use_count b p.objects + holds b old))
    → Counted (let_go old p)
unfolding let_go
let_go-Counted none p h b = ground (arith, h b)
let_go-Counted (some a) p h b = ground (arith, h b, remove-count b a p.bytes)

-- A byte is counted once for the objects and what was just let go of.
abbrev LetsGo : List ℕ → Option Replaced → Type 0
LetsGo bytes x =
    (r : Replaced)
    → x ≡ some r
    → (b : ℕ) → count b bytes ≡ used (use_count b r.next + holds b r.old)

replace-LetsGo :
    (os : List (Option ℕ)) (i : ℕ) (v : Option ℕ) (bytes : List ℕ)
    → ((b : ℕ) → count b bytes ≡ used (use_count b os + holds b v))
    → LetsGo bytes (replace os i v)
replace-LetsGo os i v bytes h r e b = h b ∙ ap used (sym (replace-use_count b os i v e))

put_from-Counted :
    (x : Option Replaced) (p : Identifiers) → LetsGo p.bytes x → WhenSome Counted (put_from x p)
put_from-Counted none p h = tt
put_from-Counted (some r) p h = let_go-Counted r.old (record p { objects = r.next }) (h r refl)

put-Counted :
    (i : ℕ) (v : Option ℕ) (p : Identifiers)
    → ((b : ℕ) → count b p.bytes ≡ used (use_count b p.objects + holds b v))
    → WhenSome Counted (put i v p)
unfolding put
put-Counted i v p h =
    put_from-Counted (replace p.objects i v) p (replace-LetsGo p.objects i v p.bytes h)

taken_from-Counted :
    (x : Option Replaced) (p : Identifiers) → LetsGo p.bytes x → WhenSome Counted (taken_from x p)
taken_from-Counted none p h = tt
taken_from-Counted (some r) p h = λ b. h r refl b ∙ ap used (sym (use_count-append b r.next r.old))

assigned_from-Counted :
    (i : ℕ) (x : Option Replaced) (p : Identifiers)
    → LetsGo p.bytes x
    → WhenSome Counted (assigned_from i x p)
assigned_from-Counted i none p h = tt
assigned_from-Counted i (some r) p h =
    put-Counted i r.old (record p { objects = r.next }) (h r refl)

pub byte_at-within :
    (b : ℕ) (os : List (Option ℕ)) (i : ℕ) → holds b (byte_at os i) ≤ use_count b os
byte_at-within b [] i = omega arith
byte_at-within b (o ∷ os) zero = omega arith
byte_at-within b (o ∷ os) (suc i) = omega (arith, byte_at-within b os i)

-- To hold a byte that an object holds already is to leave it in use.
used-byte_at :
    (b : ℕ) (os : List (Option ℕ)) (i : ℕ)
    → used (use_count b os + holds b (byte_at os i)) ≡ used (use_count b os)
used-byte_at b os i = ground (arith, byte_at-within b os i)

fresh-used :
    (a b : ℕ) (p : Identifiers)
    → Counted p
    → count a p.bytes ≡ 0
    → count b (a ∷ p.bytes) ≡ used (use_count b p.objects + is_same b a)
fresh-used a b p h f = ground (arith, h a, h b, f)

used_nothing :
    (p : Identifiers) → Counted p → (b : ℕ) → count b p.bytes ≡ used (use_count b p.objects + 0)
used_nothing p h b = h b ∙ ap used (omega arith)

append-Counted :
    (p : Identifiers) (v : Option ℕ)
    → ((b : ℕ) → count b p.bytes ≡ used (use_count b p.objects + holds b v))
    → Counted (record p { objects = p.objects ++ v ∷ [] })
append-Counted p v h b = h b ∙ ap used (sym (use_count-append b p.objects v))

step-Counted : (p : Identifiers) (c : Call) → Counted p → IsFresh p c → WhenSome Counted (step p c)
unfolding step make reset construct copy_construct assign move_construct move_assign destroy
step-Counted p constructs h f = append-Counted p none (used_nothing p h)
step-Counted p (makes i a) h f =
    put-Counted i (some a) (record p { bytes = a ∷ p.bytes }) (λ b. fresh-used a b p h f)
step-Counted p (resets i) h f = put-Counted i none p (used_nothing p h)
step-Counted p (copies j) h f =
    append-Counted p (byte_at p.objects j) (λ b. h b ∙ sym (used-byte_at b p.objects j))
step-Counted p (assigns i j) h f =
    put-Counted i (byte_at p.objects j) p (λ b. h b ∙ sym (used-byte_at b p.objects j))
step-Counted p (moves j) h f =
    taken_from-Counted (replace p.objects j none) p
      (replace-LetsGo p.objects j none p.bytes (used_nothing p h))
step-Counted p (move_assigns i j) h f =
    assigned_from-Counted i (replace p.objects j none) p
      (replace-LetsGo p.objects j none p.bytes (used_nothing p h))
step-Counted p (destroys i) h f = put-Counted i none p (used_nothing p h)

-- After any calls on no objects, in which each `make` gets a byte that is not in use: a byte is in
-- use, once, if an object holds it, and else not at all.
pub Reach-Counted : {unique : Bool} {p : Identifiers} → Reach unique p → Counted p
Reach-Counted here = λ b. refl
Reach-Counted (then_call p c next r a f e) =
    subst (WhenSome Counted) e (step-Counted p c (Reach-Counted r) f)
