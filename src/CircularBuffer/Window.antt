-- ===== src/CircularBuffer/Window.antt =====
-- The run of slots that a circular buffer of inc/circular_buffer.hpp uses, read round its end.
use native.Mathlib.Nat.{mod-add-mod, mod-lt, div-add-mod, mod-mod, add-mod_right, mod-eq_of_lt}
use hermesconcurrencyengine.Common.{
  ℕ, zero, suc, ◌+◌, ◌%◌, ◌<◌, ◌≤◌, ◌≡◌, ◌≢◌, refl, sym, subst, ap, ap₂, ◌∙◌, Option, some, List,
  [], ◌∷◌, ◌++◌, arith, length, get_elem?, set, get_elem?-set_ne, get_elem?-set_self,
}

module _ {B : Type 0} where
  -- The `n` slots from place `h` on; a place counts on past the end, and is reduced to a slot.
  abbrev pub window : List B → ℕ → ℕ → ℕ → List (Option B)
  window s cap h zero = []
  window s cap h (suc n) = get_elem? s (h % cap) ∷ window s cap (h + 1) n

-- Two places less than a round apart are different slots.
mod-ne : (cap a b : ℕ) → a < b → b < a + cap → b % cap ≢ a % cap
mod-ne cap a b lo hi e = grind (arith, div-add-mod a cap, div-add-mod b cap)

module _ {B : Type 0} (s : List B) (cap : ℕ) where
  pub length-window : (h n : ℕ) → length (window s cap h n) ≡ n
  length-window h zero = refl
  length-window h (suc n) = ap suc (length-window (h + 1) n)

  -- A write past the window, and less than a round from its start, leaves it alone.
  pub window-set :
      (j h n : ℕ) (v : B)
      → h + n ≤ j
      → j < h + cap
      → window (set s (j % cap) v) cap h n ≡ window s cap h n
  window-set j h zero v lo hi = refl
  window-set j h (suc n) v lo hi =
      ap₂ ◌∷◌ (get_elem?-set_ne s v (mod-ne cap h j (omega arith) hi))
        (window-set j (h + 1) n v (omega arith) (omega arith))

  pub window-snoc :
      (h n j : ℕ)
      → j ≡ h + n
      → window s cap h (suc n) ≡ window s cap h n ++ get_elem? s (j % cap) ∷ []
  window-snoc h zero j e = ap (λ k. get_elem? s (k % cap) ∷ []) (omega arith)
  window-snoc h (suc n) j e =
      ap (λ l. get_elem? s (h % cap) ∷ l) (window-snoc (h + 1) n j (omega arith))

  -- A place may be reduced first.
  pub window-mod : (h n : ℕ) → window s cap (h % cap) n ≡ window s cap h n
  window-mod h zero = refl
  window-mod h (suc n) = ap₂ ◌∷◌ (ap (get_elem? s) (mod-mod h cap)) (
      sym (window-mod (h % cap + 1) n)
      ∙ ap (λ k. window s cap k n) (mod-add-mod h cap 1)
      ∙ window-mod (h + 1) n)

module _ {B : Type 0} (s : List B) (cap : ℕ) (block : length s ≡ cap) where
  -- A write just past the window extends it by what is written.
  pub window-set_end :
      (h n i : ℕ) (v : B)
      → n < cap
      → i ≡ (h + n) % cap
      → window (set s i v) cap h (suc n) ≡ window s cap h n ++ some v ∷ []
  window-set_end h n i v room e =
      subst (λ k. window (set s k v) cap h (suc n) ≡ window s cap h n ++ some v ∷ []) (sym e)
        (window-snoc (set s ((h + n) % cap) v) cap h n (h + n) refl
          ∙ ap₂ (λ l o. l ++ o ∷ []) (window-set s cap (h + n) h n v (omega arith) (omega arith))
              (get_elem?-set_self s _ v (rw block (mod-lt (h + n) (omega arith)))))

  -- A write to the first slot leaves the rest of the window.
  pub window-set_start :
      (h n : ℕ) (v : B) (y : Option B) (rest : List (Option B))
      → h < cap
      → n < cap
      → window s cap h (suc n) ≡ y ∷ rest
      → window (set s h v) cap ((h + 1) % cap) n ≡ rest
  window-set_start h n v y rest hh room e =
      window-mod (set s h v) cap (h + 1) n
      ∙ ap (λ k. window (set s k v) cap (h + 1) n) slot
      ∙ window-set s cap (h + cap) (h + 1) n v (omega arith) (omega arith)
      ∙ cc
    where
      slot : h ≡ (h + cap) % cap
      slot = omega (arith, add-mod_right h cap, mod-eq_of_lt hh)
