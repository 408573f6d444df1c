-- ===== src/Memory/Indexer.antt =====
-- `indexer` of src/lifecycle.cpp, and the powers of two.
use hermesconcurrencyengine.Common.{
  ℕ, zero, suc, ◌+◌, ◌-◌, ◌*◌, ◌/◌, ◌%◌, ◌^◌, ◌<◌, ◌≤◌, ◌≡◌, ◌≢◌, ◌⊎◌, inl, inr, refl, sym, ap,
  subst, arith, decrement, ◌==◌, Bool-cases,
}
use native.Mathlib.Nat.{two-pow-succ}
use hermesconcurrencyengine.Memory.{bit_width, bit_and, indexer}

parity : (n : ℕ) → (n % 2 ≡ 0) ⊎ (n % 2 ≡ 1)
parity n = omega arith

smaller : (n : ℕ) → 0 < n → (n ≡ 1) ⊎ (0 < n / 2)
smaller n h = omega arith

pub pow-positive : (k : ℕ) → 0 < 2 ^ k
pow-positive zero = omega arith
pow-positive (suc k) = omega (arith, two-pow-succ k, pow-positive k)

bit_width-zero : (bits : ℕ) → bit_width bits 0 ≡ 0
unfolding bit_width
bit_width-zero zero = refl
bit_width-zero (suc bits) = refl

bit_and_self : (bits n : ℕ) → n < 2 ^ bits → bit_and bits n n ≡ n
unfolding bit_and
bit_and_self zero n h = omega arith
bit_and_self (suc bits) n h =
    let again = bit_and_self bits (n / 2) (omega (arith, two-pow-succ bits)) in
    elim (parity n) [ inl e ↦ rw (e, again) (omega arith) | inr e ↦ rw (e, again) (omega arith) ]

width-suc :
    (bits n : ℕ) {w : ℕ} → 0 < n / 2 → bit_width bits (n / 2) ≡ w → bit_width (suc bits) n ≡ suc w
unfolding bit_width
width-suc bits n q e = ground arith

-- The highest set bit of `n`, and whether `n & (n - 1)` is zero.
record Highest (bits n w : ℕ) : Type 0 where
  width : bit_width bits n ≡ suc w
  narrow : w < bits
  low : 2 ^ w ≤ n
  high : n < 2 * 2 ^ w
  power : (bit_and bits n (n - 1) ≡ 0) → n ≡ 2 ^ w
  no_power : n ≡ 2 ^ w → (bit_and bits n (n - 1) ≡ 0)

one : (bits : ℕ) → bit_and bits 0 0 ≡ 0
unfolding bit_and
one bits = bit_and_self bits 0 (omega (arith, pow-positive bits))

and-even :
    (bits n : ℕ)
    → n % 2 ≡ 0
    → 0 < n / 2
    → bit_and (suc bits) n (n - 1) ≡ 2 * bit_and bits (n / 2) (n / 2 - 1)
unfolding bit_and
and-even bits n e q = let half : (n - 1) / 2 ≡ n / 2 - 1 = omega arith in rw (e, half) (omega arith)

and-odd : (bits n : ℕ) → n % 2 ≡ 1 → n < 2 ^ suc bits → bit_and (suc bits) n (n - 1) ≡ 2 * (n / 2)
unfolding bit_and
and-odd bits n e h =
    let half : (n - 1) / 2 ≡ n / 2 = omega arith in
    let even : (n - 1) % 2 ≡ 0 = omega arith in
    let same = bit_and_self bits (n / 2) (omega (arith, two-pow-succ bits)) in
    rw (e, half, even, same) (omega arith)

doubled :
    (bits n w : ℕ)
    → 0 < n / 2
    → n < 2 ^ suc bits
    → Highest bits (n / 2) w
    → Highest (suc bits) n (suc w)
doubled bits n w q h v = elim (parity n) [
  | inl e ↦ record {
    width = width-suc bits n q v.width;
    narrow = omega (arith, v.narrow);
    low = omega (arith, v.low, two-pow-succ w);
    high = omega (arith, v.high, two-pow-succ w);
    power = λ z. omega (arith, v.power (omega (arith, and-even bits n e q)), two-pow-succ w);
    no_power = λ z. omega (arith, v.no_power (omega (arith, two-pow-succ w)), and-even bits n e q);
  }
  | inr e ↦ record {
    width = width-suc bits n q v.width;
    narrow = omega (arith, v.narrow);
    low = omega (arith, v.low, two-pow-succ w);
    high = omega (arith, v.high, two-pow-succ w);
    power = λ z. absurd (omega (arith, and-odd bits n e h));
    no_power = λ z. absurd (omega (arith, two-pow-succ w));
  }
]

highest : (bits n : ℕ) → 0 < n → n < 2 ^ bits → (w : ℕ) × Highest bits n w
unfolding bit_width bit_and
highest zero n p h = absurd (omega arith)
highest (suc bits) n p h = elim (smaller n p) [
  | inl e ↦ (
    0,
    subst (λ k. Highest (suc bits) k 0) (sym e)
        (record {
          width = ap suc (bit_width-zero bits);
          narrow = omega arith;
          low = omega arith;
          high = omega arith;
          power = λ z. refl;
          no_power = λ z. omega (arith, one bits);
        }),
  )
  | inr q ↦
      let (w, v) = highest bits (n / 2) q (omega (arith, two-pow-succ bits)) in
      (suc w, doubled bits n w q h v)
]

indexer-cases :
    (size w : ℕ)
    → 0 < size
    → size < 2 ^ 64
    → Highest 64 size w
    → ((indexer size ≡ w) × (size ≡ 2 ^ w))
      ⊎ ((indexer size ≡ suc w) × (2 ^ w < size) × (size < 2 ^ suc w))
unfolding indexer
indexer-cases size w p h v =
    let down : decrement size ≡ size - 1 = omega arith in
    let index : (bit_width 64 size + 2 ^ 64 - 1) % 2 ^ 8 ≡ w = omega (arith, v.width, v.narrow) in
    rw (down, index)
      (elim (Bool-cases (bit_and 64 size (size - 1) == 0)) [
        | inl b ↦ inl (ground arith, v.power (ground arith))
        | inr b ↦
            let apart : size ≢ 2 ^ w = λ e. ground (arith, b, v.no_power e) in
            inr (
              ground (arith, v.narrow),
              omega (arith, v.low),
              omega (arith, v.high, two-pow-succ w),
            )
      ])

-- For a size between 1 and 2^64 - 1, the power of two at its index is at least the size, and less
-- than twice the size.
pub indexer_lem :
    (size : ℕ)
    → 0 < size
    → size < 2 ^ 64
    → (size ≤ 2 ^ indexer size) × (2 ^ indexer size < 2 * size)
indexer_lem size p h =
    let (w, v) = highest 64 size p h in
    elim (indexer-cases size w p h v) [
      | inl (e, f) ↦ rw e (omega arith)
      | inr (e, f, g) ↦ rw e (omega (arith, two-pow-succ w))
    ]
