-- ===== src/Identifier/Identity.antt =====
-- Identifiers of inc/id.hpp are equal where the numbers of Refine.antt are.
use hermesconcurrencyengine.Common.{
  ℕ, ◌≤◌, Bool, Option, none, some, List, [], ◌≡◌, refl, sym, subst, ap, ap₂, ◌∙◌, map, count,
  arith,
}
use hermesconcurrencyengine.Identifier.{
  Identifiers, byte_at, holds, is_equal, is_set, has_byte, equal_bytes, step, Call, constructs,
  makes, resets, copies, assigns, moves, move_assigns, destroys,
}
use hermesconcurrencyengine.Identifier.Sharing.{Counted, IsFresh, Reach-Counted, byte_at-within}
use hermesconcurrencyengine.Identifier.Refine.{
  held_at, act, Numbers, number, Run, none_yet, then_both, Run-Reach, held_at-byte_at, address_of,
  step-act,
}
use hermesconcurrencyengine.Identifier.Pairs.{
  first, second, pair_of, act-map, held_at-map, act-Source, Agree, Matched, Source-Agree, Below,
  pair_of-Below, Source-Below,
}

-- The objects and their numbers, beside one another.
record Related (p : Identifiers) (q : Numbers) : Type 0 where
  pairs : List (Option (ℕ × ℕ))
  addresses : p.objects ≡ map first pairs
  numbers : q.objects ≡ map second pairs
  matched : Matched pairs
  below : (i : ℕ) → Below q.next (held_at pairs i)

first-pair_of : (c : Call) (n : ℕ) → first (pair_of c n) ≡ address_of c
first-pair_of constructs n = refl
first-pair_of (makes i a) n = refl
first-pair_of (resets i) n = refl
first-pair_of (copies j) n = refl
first-pair_of (assigns i j) n = refl
first-pair_of (moves j) n = refl
first-pair_of (move_assigns i j) n = refl
first-pair_of (destroys i) n = refl

-- Only `make` looks at the new number.
act-second :
    (c : Call) (n : ℕ) (os : List (Option ℕ)) → act (some n) os c ≡ act (second (pair_of c n)) os c
act-second constructs n os = refl
act-second (makes i a) n os = refl
act-second (resets i) n os = refl
act-second (copies j) n os = refl
act-second (assigns i j) n os = refl
act-second (moves j) n os = refl
act-second (move_assigns i j) n os = refl
act-second (destroys i) n os = refl

unheld :
    (p : Identifiers) (a m : ℕ) (zs : List (Option (ℕ × ℕ)))
    → Counted p
    → count a p.bytes ≡ 0
    → p.objects ≡ map first zs
    → holds a (first (held_at zs m)) ≤ 0
unheld p a m zs counted free e =
    let same : byte_at p.objects m ≡ first (held_at zs m) =
      sym (held_at-byte_at p.objects m) ∙ ap (λ l. held_at l m) e ∙ held_at-map first refl zs m in
    subst (λ o. holds a o ≤ 0) same (ground (arith, byte_at-within a p.objects m, counted a, free))

new-Agree :
    (a n : ℕ) (o : Option (ℕ × ℕ)) → holds a (first o) ≤ 0 → Below n o → Agree (some (a, n)) o
new-Agree a n none h b = tt
new-Agree a n (some z) h b = ground (arith, h, b)

fresh-Agree :
    (p : Identifiers) (q : Numbers) (c : Call)
    → Counted p
    → IsFresh p c
    → (v : Related p q) → (m : ℕ) → Agree (pair_of c q.next) (held_at v.pairs m)
fresh-Agree p q constructs k f v m = tt
fresh-Agree p q (makes i a) k f v m =
    new-Agree a q.next (held_at v.pairs m) (unheld p a m v.pairs k f v.addresses) (v.below m)
fresh-Agree p q (resets i) k f v m = tt
fresh-Agree p q (copies j) k f v m = tt
fresh-Agree p q (assigns i j) k f v m = tt
fresh-Agree p q (moves j) k f v m = tt
fresh-Agree p q (move_assigns i j) k f v m = tt
fresh-Agree p q (destroys i) k f v m = tt

step-Related :
    (p : Identifiers) (q : Numbers) (c : Call) {next : Identifiers}
    → Counted p
    → IsFresh p c
    → step p c ≡ some next
    → Related p q
    → Related next (number q c)
step-Related p q c k f e v =
    let new = pair_of c q.next in
    let source = act-Source new v.pairs c in
    let agree = fresh-Agree p q c k f v in
    record {
      pairs = act new v.pairs c;
      addresses =
          step-act p c e
          ∙ ap₂ (λ o l. act o l c) (sym (first-pair_of c q.next)) v.addresses
          ∙ sym (act-map first refl new v.pairs c);
      numbers =
          act-second c q.next q.objects
          ∙ ap (λ l. act (second new) l c) v.numbers
          ∙ sym (act-map second refl new v.pairs c);
      matched = λ i j.
          Source-Agree new v.pairs (held_at (act new v.pairs c) i) (held_at (act new v.pairs c) j)
            v.matched agree (source i) (source j);
      below = λ i.
          Source-Below q.next new v.pairs (held_at (act new v.pairs c) i) v.below
            (pair_of-Below q.next c) (source i);
    }

Run-Related : {unique : Bool} {p : Identifiers} {q : Numbers} → Run unique p q → Related p q
Run-Related none_yet = record {
  pairs = [];
  addresses = refl;
  numbers = refl;
  matched = λ i j. tt;
  below = λ i. tt;
}
Run-Related (then_both p q c next r a f e) =
    step-Related p q c (Reach-Counted (Run-Reach r)) f e (Run-Related r)

equal-Agree :
    (o p : Option (ℕ × ℕ))
    → Agree o p
    → equal_bytes (first o) (first p) ≡ equal_bytes (second o) (second p)
equal-Agree none none h = refl
equal-Agree none (some w) h = refl
equal-Agree (some z) none h = refl
equal-Agree (some z) (some w) h = h

has-second : (o : Option (ℕ × ℕ)) → has_byte (first o) ≡ has_byte (second o)
has-second none = refl
has-second (some z) = refl

-- After any calls on no objects, in which each `make` gets a byte that is not in use: two objects
-- are equal exactly if they would be with a new number for each `make`, which no other call of it
-- ever gives, in place of the address of its byte; and an object holds a byte exactly if it would
-- hold a number.
pub is_equal-number :
    {unique : Bool} {p : Identifiers} {q : Numbers}
    → Run unique p q
    → (i j : ℕ)
    → (is_equal i j p ≡ equal_bytes (held_at q.objects i) (held_at q.objects j))
      × (is_set i p ≡ has_byte (held_at q.objects i))
unfolding is_equal is_set
is_equal-number {p = p} {q = q} r i j =
    let v = Run-Related r in
    let address = λ (k : ℕ).
      sym (held_at-byte_at p.objects k)
      ∙ ap (λ l. held_at l k) v.addresses
      ∙ held_at-map first refl v.pairs k in
    let numbered = λ (k : ℕ). ap (λ l. held_at l k) v.numbers ∙ held_at-map second refl v.pairs k in
    (
      ap₂ equal_bytes (address i) (address j)
          ∙ equal-Agree (held_at v.pairs i) (held_at v.pairs j) (v.matched i j)
          ∙ sym (ap₂ equal_bytes (numbered i) (numbered j)),
      ap has_byte (address i) ∙ has-second (held_at v.pairs i) ∙ sym (ap has_byte (numbered i)),
    )
