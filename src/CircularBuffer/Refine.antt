-- ===== src/CircularBuffer/Refine.antt =====
-- A circular buffer of inc/circular_buffer.hpp and the queue of its elements.
use native.Mathlib.Nat.{mod-eq_of_lt, mod-lt, mod-add-mod}
use hermesconcurrencyengine.Common.{
  ℕ, suc, ◌+◌, ◌-◌, ◌%◌, ◌^◌, ◌≤◌, ◌<◌, ◌≡◌, refl, sym, subst, ap, ◌∙◌, Option, none, some, List,
  [], ◌∷◌, ◌++◌, map, arith, length, get_elem?, add_size, ◌==◌, decrement, length-set,
  length-replicate,
}
use hermesconcurrencyengine.CircularBuffer.Window.{
  window, length-window, window-set_end, window-set_start,
}
use hermesconcurrencyengine.CircularBuffer.{
  CircularBuffer, make, remaining, is_empty, is_full, front, emplace, pop,
}

-- The buffer holds the elements `xs`, oldest first, each constructed in its slot.
pub record Holds {A : Type 0} (b : CircularBuffer A) (xs : List A) : Type 0 where
  pub small : b.size < 2 ^ 64
  pub block : length b.slots ≡ b.size
  pub used_in : b.used ≤ b.size
  pub front_in : b.front_idx ≤ b.size - 1
  pub back_at : b.back_idx ≡ (b.front_idx + b.used) % b.size
  pub contents : window b.slots b.size b.front_idx b.used ≡ map (λ a. some (some a)) xs

module _ {A : Type 0} where
  length-map-some :
      (xs : List A) → length (map {B = Option (Option A)} (λ a. some (some a)) xs) ≡ length xs
  length-map-some [] = refl
  length-map-some (x ∷ xs) = ap suc (length-map-some xs)

  map-some-snoc :
      (xs : List A) (a : A)
      → map {B = Option (Option A)} (λ x. some (some x)) (xs ++ a ∷ [])
        ≡ map (λ x. some (some x)) xs ++ some (some a) ∷ []
  map-some-snoc [] a = refl
  map-some-snoc (x ∷ xs) a = ap (λ l. some (some x) ∷ l) (map-some-snoc xs a)

  pub make-Holds : (sz : ℕ) → sz < 2 ^ 64 → Holds {A = A} (make sz) []
  unfolding make
  make-Holds sz h = record {
    small = h;
    block = length-replicate sz none;
    used_in = omega arith;
    front_in = omega arith;
    back_at = omega arith;
    contents = refl;
  }

  pub used-length : {b : CircularBuffer A} {xs : List A} → Holds b xs → b.used ≡ length xs
  used-length {b} {xs} h =
      sym (length-window b.slots b.size b.front_idx b.used)
      ∙ ap length h.contents
      ∙ length-map-some xs

  -- If a buffer holds `xs`, then `remaining()` is what its size leaves beside `xs`, `empty()` tells
  -- whether `xs` is empty, and `full()` whether it is as long as the size.
  pub observers_lem :
      {b : CircularBuffer A} {xs : List A}
      → Holds b xs
      → (remaining b + length xs ≡ b.size)
        × (is_empty b ≡ (0 == length xs))
        × (is_full b ≡ (b.size == length xs))
  unfolding remaining is_empty is_full
  observers_lem h = ground (arith, used-length h)

  -- If a buffer holds `xs` and has room, then after `emplace` of `a` it holds `xs` and then `a`.
  pub emplace-Holds :
      {b : CircularBuffer A} {xs : List A} (a : A)
      → Holds b xs
      → length xs < b.size
      → Holds (emplace b a) (xs ++ a ∷ [])
  unfolding emplace
  emplace-Holds {b} {xs} a h room = record {
    small = h.small;
    block = length-set b.slots b.back_idx (some a) ∙ h.block;
    used_in = omega (arith, used-length h);
    front_in = h.front_in;
    back_at =
        rw (used_next, back_next, h.back_at)
          (mod-add-mod (b.front_idx + b.used) b.size 1 ∙ ap (λ k. k % b.size) (omega arith));
    contents = rw used_next (
        window-set_end b.slots b.size h.block b.front_idx b.used b.back_idx (some a)
          (omega (arith, used-length h)) h.back_at
        ∙ ap (λ l. l ++ some (some a) ∷ []) h.contents
        ∙ sym (map-some-snoc xs a));
  }
    where
      used_next : add_size b.used 1 ≡ suc b.used
      used_next = omega (arith, used-length h)

      back_next : add_size b.back_idx 1 ≡ b.back_idx + 1
      back_next = omega (
        arith,
        used-length h,
        h.back_at,
        mod-lt (b.front_idx + b.used) {m = b.size} (omega arith),
      )

  -- The contents of a buffer that is not empty, with the first slot in view.
  first_slot :
      {b : CircularBuffer A} (x : A) (xs : List A)
      → Holds b (x ∷ xs)
      → window b.slots b.size b.front_idx (suc (length xs))
        ≡ some (some x) ∷ map (λ a. some (some a)) xs
  first_slot {b} x xs h =
      subst (λ n. window b.slots b.size b.front_idx n ≡ some (some x) ∷ map (λ a. some (some a)) xs)
        (used-length h) h.contents

  pub front-Holds :
      {b : CircularBuffer A} (x : A) (xs : List A) → Holds b (x ∷ xs) → front b ≡ some x
  unfolding front
  front-Holds {b} x xs h = rw (read, front)
    where
      read : get_elem? b.slots b.front_idx ≡ some (some x)
      read =
          ground
            (arith, first_slot x xs h, mod-eq_of_lt {n = b.front_idx} {m = b.size}, used-length h)

  pub pop-Holds : {b : CircularBuffer A} (x : A) (xs : List A) → Holds b (x ∷ xs) → Holds (pop b) xs
  unfolding pop
  pop-Holds {b} x xs h = record {
    small = h.small;
    block = length-set b.slots b.front_idx none ∙ h.block;
    used_in = omega (arith, used-length h);
    front_in =
        rw front_next
          (omega (arith, mod-lt (b.front_idx + 1) {m = b.size} (omega (arith, used-length h))));
    back_at =
        rw (front_next, used_next)
          (h.back_at
            ∙ ap (λ k. k % b.size) (omega (arith, used-length h))
            ∙ sym (mod-add-mod (b.front_idx + 1) b.size (length xs)));
    contents =
        rw (front_next, used_next)
          (window-set_start b.slots b.size h.block b.front_idx (length xs) none _ _
            (omega (arith, used-length h)) (omega (arith, used-length h)) (first_slot x xs h));
  }
    where
      used_next : decrement b.used ≡ length xs
      used_next = omega (arith, used-length h)

      front_next : add_size b.front_idx 1 % b.size ≡ (b.front_idx + 1) % b.size
      front_next = ap (λ k. k % b.size) (omega arith)

  pub size-emplace : (b : CircularBuffer A) (a : A) → (emplace b a).size ≡ b.size
  unfolding emplace
  size-emplace b a = refl

  pub size-pop : (b : CircularBuffer A) → (pop b).size ≡ b.size
  unfolding pop
  size-pop b = refl

pub size-make : (A : Type 0) (sz : ℕ) → (make {A = A} sz).size ≡ sz
unfolding make
size-make A sz = refl

module _ {A : Type 0} where
  -- The constructed elements among the slots that a read finds.
  elements : List (Option (Option A)) → List A
  elements [] = []
  elements (none ∷ rest) = elements rest
  elements (some none ∷ rest) = elements rest
  elements (some (some a) ∷ rest) = a ∷ elements rest

  -- The elements of a buffer, oldest first.
  pub to_list : CircularBuffer A → List A
  to_list b = elements (window b.slots b.size b.front_idx b.used)

  elements-map : (xs : List A) → elements (map (λ a. some (some a)) xs) ≡ xs
  unfolding elements
  elements-map [] = refl
  elements-map (x ∷ xs) = ap (λ l. x ∷ l) (elements-map xs)

  pub to_list-Holds : {b : CircularBuffer A} {xs : List A} → Holds b xs → to_list b ≡ xs
  unfolding to_list
  to_list-Holds {b} {xs} h = ap elements h.contents ∙ elements-map xs

pub used-make : (A : Type 0) (sz : ℕ) → (make {A = A} sz).used ≡ 0
unfolding make
used-make A sz = refl

-- If a buffer holds `x` and then `xs`, then `front()` is `x`, and after `pop()` it holds `xs`.
pub front-pop :
    {A : Type 0} {b : CircularBuffer A} (x : A) (xs : List A)
    → Holds b (x ∷ xs)
    → (front b ≡ some x) × Holds (pop b) xs
front-pop x xs h = (front-Holds x xs h, pop-Holds x xs h)
