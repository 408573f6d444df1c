-- ===== src/Allocator/Aligned.antt =====
-- The rounding of `aligned_size` of inc/alloc.hpp.
use native.Mathlib.Nat.{
  div-add-mod, mod-lt, mod-eq_of_lt, mul-mod_right, mul-add-mod_self_left, two-pow-succ,
}
use hermesconcurrencyengine.Memory.Indexer.{pow-positive}
use hermesconcurrencyengine.Common.{
  ℕ, zero, suc, ◌+◌, ◌-◌, ◌*◌, ◌/◌, ◌%◌, ◌^◌, ◌≤◌, ◌<◌, ◌≡◌, ap, ◌∙◌, arith,
}
use hermesconcurrencyengine.Memory.{bit_and}
use hermesconcurrencyengine.Allocator.{Layout, aligned_size}

bit_and-ones : (bits x : ℕ) → x < 2 ^ bits → bit_and bits x (2 ^ bits - 1) ≡ x
unfolding bit_and
bit_and-ones zero x h = omega arith
bit_and-ones (suc bits) x h =
    let positive = pow-positive bits in
    let half : (2 ^ suc bits - 1) / 2 ≡ 2 ^ bits - 1 = omega (arith, two-pow-succ bits, positive) in
    let odd : (2 ^ suc bits - 1) % 2 ≡ 1 = omega (arith, two-pow-succ bits, positive) in
    rw (half, odd, bit_and-ones bits (x / 2) (omega (arith, two-pow-succ bits))) (omega arith)

mod-double : (x m : ℕ) → 0 < m → x % (m + m) ≡ 2 * (x / 2 % m) + x % 2
mod-double x m h =
    let q = x / 2 / m in
    let r = 2 * (x / 2 % m) + x % 2 in
    let low = mod-lt (x / 2) h in
    let split : x ≡ (m + m) * q + r = grind (arith, div-add-mod (x / 2) m) in
    ap (λ n. n % (m + m)) split
    ∙ mul-add-mod_self_left (m + m) q r
    ∙ mod-eq_of_lt (omega (arith, low))

bit_and-mask :
    (bits k x : ℕ) → k ≤ bits → x < 2 ^ bits → bit_and bits x (2 ^ bits - 2 ^ k) + x % 2 ^ k ≡ x
unfolding bit_and
bit_and-mask bits zero x l h = omega (arith, bit_and-ones bits x h)
bit_and-mask zero (suc k) x l h = absurd (omega arith)
bit_and-mask (suc bits) (suc k) x l h =
    let half : (2 ^ suc bits - 2 ^ suc k) / 2 ≡ 2 ^ bits - 2 ^ k =
      omega (arith, two-pow-succ bits, two-pow-succ k) in
    let even : (2 ^ suc bits - 2 ^ suc k) % 2 ≡ 0 =
      omega (arith, two-pow-succ bits, two-pow-succ k) in
    let rest : x % 2 ^ suc k ≡ 2 * (x / 2 % 2 ^ k) + x % 2 =
      ap (λ n. x % n) (two-pow-succ k) ∙ mod-double x (2 ^ k) (pow-positive k) in
    rw (half, even, rest)
      (omega (arith, bit_and-mask bits k (x / 2) (omega arith) (omega (arith, two-pow-succ bits))))

module _ (t : Layout) (n k : ℕ) where
  aligned_size-mask :
      k < 64
      → t.align_of ≡ 2 ^ k
      → t.size_of * n + t.align_of ≤ 2 ^ 64
      → let total = t.size_of * n + t.align_of - 1 in aligned_size t n + total % t.align_of ≡ total
  unfolding aligned_size
  aligned_size-mask small power room =
      let positive = pow-positive k in
      let total = t.size_of * n + t.align_of - 1 in
      let sum : (t.size_of * n + t.align_of + 2 ^ 64 - 1) % 2 ^ 64 ≡ total =
        omega (arith, positive, power, room) in
      let mask : (2 ^ 64 + 2 ^ 64 - t.align_of) % 2 ^ 64 ≡ 2 ^ 64 - 2 ^ k =
        omega (arith, positive, power, room) in
      let modulus : total % t.align_of ≡ total % 2 ^ k = ap (λ a. total % a) power in
      rw (sum, mask, modulus)
        (bit_and-mask 64 k total (omega (arith, small)) (omega (arith, positive, power, room)))

  -- For an alignment that is a power of two below 2^64, and a size that with the alignment is at
  -- most 2^64, `aligned_size` is at least `sizeof(T) * n`, less than that and the alignment, and a
  -- multiple of the alignment.
  pub aligned_size_lem :
      k < 64
      → t.align_of ≡ 2 ^ k
      → t.size_of * n + t.align_of ≤ 2 ^ 64
      → (t.size_of * n ≤ aligned_size t n)
        × (aligned_size t n < t.size_of * n + t.align_of)
        × (aligned_size t n % t.align_of ≡ 0)
  aligned_size_lem small power room =
      let positive : 0 < t.align_of = omega (arith, pow-positive k, power) in
      let total = t.size_of * n + t.align_of - 1 in
      let masked = aligned_size-mask small power room in
      let low = mod-lt total positive in
      let whole : aligned_size t n ≡ t.align_of * (total / t.align_of) =
        omega (arith, masked, div-add-mod total t.align_of) in
      (
        omega (arith, masked, low, positive),
        omega (arith, masked, low, positive),
        ap (λ x. x % t.align_of) whole ∙ mul-mod_right t.align_of (total / t.align_of),
      )
