-- ===== src/Identifier/Distinct.antt =====
-- What an object of inc/id.hpp holds after `make`, beside what the others hold.
use hermesconcurrencyengine.Common.{
  ℕ, zero, suc, ◌≤◌, Bool, false, Option, none, some, List, [], ◌∷◌, ◌≡◌, ◌≢◌, refl, sym, ap, ap₂,
  ◌∙◌, count, arith,
}
use hermesconcurrencyengine.Identifier.{
  Identifiers, Replaced, replace, byte_at, holds, let_go, put, put_from, make, is_equal,
  equal_bytes,
}
use hermesconcurrencyengine.Identifier.Sharing.{Reach, Reach-Counted, behind-old, byte_at-within}

pub let_go-objects : (old : Option ℕ) (p : Identifiers) → (let_go old p).objects ≡ p.objects
unfolding let_go
let_go-objects none p = refl
let_go-objects (some b) p = ground arith

replace-byte_at_same :
    (os : List (Option ℕ)) (i : ℕ) (v : Option ℕ) {r : Replaced}
    → replace os i v ≡ some r
    → byte_at r.next i ≡ v
unfolding replace
replace-byte_at_same [] i v e = cc
replace-byte_at_same (o ∷ os) zero v {r} e =
    let next : r.next ≡ v ∷ os = cc in ap (λ x. byte_at x 0) next
replace-byte_at_same (o ∷ os) (suc i) v e =
    let (q, same, old, next) = behind-old o (replace os i v) e in
    ap (λ x. byte_at x (suc i)) next ∙ replace-byte_at_same os i v same

replace-byte_at_other :
    (os : List (Option ℕ)) (i j : ℕ) (v : Option ℕ) {r : Replaced}
    → i ≢ j
    → replace os i v ≡ some r
    → byte_at r.next j ≡ byte_at os j
unfolding replace
replace-byte_at_other [] i j v d e = cc
replace-byte_at_other (o ∷ os) zero zero v d e = absurd (d refl)
replace-byte_at_other (o ∷ os) zero (suc j) v {r} d e =
    let next : r.next ≡ v ∷ os = cc in ap (λ x. byte_at x (suc j)) next
replace-byte_at_other (o ∷ os) (suc i) zero v d e =
    let (q, same, old, next) = behind-old o (replace os i v) e in ap (λ x. byte_at x 0) next
replace-byte_at_other (o ∷ os) (suc i) (suc j) v d e =
    let (q, same, old, next) = behind-old o (replace os i v) e in
    ap (λ x. byte_at x (suc j)) next ∙ replace-byte_at_other os i j v (λ x. d (ap suc x)) same

put_from-objects :
    (x : Option Replaced) (p : Identifiers) {next : Identifiers}
    → put_from x p ≡ some next
    → (r : Replaced) × (x ≡ some r) × (next.objects ≡ r.next)
put_from-objects none p e = cc
put_from-objects (some r) p {next} e =
    let same : let_go r.old (record p { objects = r.next }) ≡ next = cc in
    (
      r,
      refl,
      ap (λ (x : Identifiers). x.objects) (sym same)
          ∙ let_go-objects r.old (record p { objects = r.next }),
    )

other_bytes : (a : ℕ) (o : Option ℕ) → holds a o ≤ 0 → equal_bytes (some a) o ≡ false
other_bytes a none h = refl
other_bytes a (some b) h = ground (arith, h)

-- After any calls on no objects, in which each `make` gets a byte that is not in use, one more such
-- `make` leaves its object equal to no other.
pub make-is_equal :
    {unique : Bool} (p : Identifiers) (i j address : ℕ) {next : Identifiers}
    → Reach unique p
    → count address p.bytes ≡ 0
    → i ≢ j
    → make i address p ≡ some next
    → is_equal i j next ≡ false
unfolding make put is_equal
make-is_equal p i j address {next} reach fresh other e =
    let (r, same, objects) =
      put_from-objects (replace p.objects i (some address)) (record p { bytes = address ∷ p.bytes })
        e in
    let counted = Reach-Counted reach address in
    let low : holds address (byte_at p.objects j) ≤ 0 =
      ground (arith, byte_at-within address p.objects j, counted, fresh) in
    ap₂ equal_bytes
      (ap (λ x. byte_at x i) objects ∙ replace-byte_at_same p.objects i (some address) same)
      (ap (λ x. byte_at x j) objects
        ∙ replace-byte_at_other p.objects i j (some address) other same)
    ∙ other_bytes address (byte_at p.objects j) low
