-- ===== src/Identifier/Pairs.antt =====
-- The address of an identifier of inc/id.hpp beside the number of Refine.antt, through every call.
use hermesconcurrencyengine.Common.{
  ℕ, zero, suc, ◌+◌, ◌<◌, Option, none, some, List, [], ◌∷◌, ◌++◌, ◌≡◌, refl, sym, subst, ap, ap₂,
  ◌∙◌, ◌⊎◌, inl, inr, ◌==◌, set, map, arith,
}
use hermesconcurrencyengine.Identifier.{
  Call, constructs, makes, resets, copies, assigns, moves, move_assigns, destroys,
}
use hermesconcurrencyengine.Identifier.Refine.{held_at, act}

-- An address beside the number that was given for it.
abbrev pub first : Option (ℕ × ℕ) → Option ℕ
first none = none
first (some z) = some z.0

abbrev pub second : Option (ℕ × ℕ) → Option ℕ
second none = none
second (some z) = some z.1

abbrev pub pair_of : Call → ℕ → Option (ℕ × ℕ)
pair_of (makes i address) n = some (address, n)
pair_of constructs n = none
pair_of (resets i) n = none
pair_of (copies j) n = none
pair_of (assigns i j) n = none
pair_of (moves j) n = none
pair_of (move_assigns i j) n = none
pair_of (destroys i) n = none

module _ {B C : Type 0} (f : Option B → Option C) (f_none : f none ≡ none) where
  map-set :
      (zs : List (Option B)) (i : ℕ) (v : Option B) → map f (set zs i v) ≡ set (map f zs) i (f v)
  map-set [] i v = refl
  map-set (z ∷ zs) zero v = refl
  map-set (z ∷ zs) (suc i) v = ap (λ l. f z ∷ l) (map-set zs i v)

  map-snoc : (zs : List (Option B)) (v : Option B) → map f (zs ++ v ∷ []) ≡ map f zs ++ f v ∷ []
  map-snoc [] v = refl
  map-snoc (z ∷ zs) v = ap (λ l. f z ∷ l) (map-snoc zs v)

  pub held_at-map : (zs : List (Option B)) (i : ℕ) → held_at (map f zs) i ≡ f (held_at zs i)
  held_at-map [] i = sym f_none
  held_at-map (z ∷ zs) zero = refl
  held_at-map (z ∷ zs) (suc i) = held_at-map zs i

  map-set-none : (zs : List (Option B)) (i : ℕ) → map f (set zs i none) ≡ set (map f zs) i none
  map-set-none zs i = map-set zs i none ∙ ap (set (map f zs) i) f_none

  pub act-map :
      (v : Option B) (zs : List (Option B)) (c : Call) → map f (act v zs c) ≡ act (f v) (map f zs) c
  act-map v zs constructs = map-snoc zs none ∙ ap (λ o. map f zs ++ o ∷ []) f_none
  act-map v zs (makes i a) = map-set zs i v
  act-map v zs (resets i) = map-set-none zs i
  act-map v zs (copies j) =
      map-snoc zs (held_at zs j) ∙ ap (λ o. map f zs ++ o ∷ []) (sym (held_at-map zs j))
  act-map v zs (assigns i j) =
      map-set zs i (held_at zs j) ∙ ap (set (map f zs) i) (sym (held_at-map zs j))
  act-map v zs (moves j) =
      map-snoc (set zs j none) (held_at zs j)
      ∙ ap₂ (λ l o. l ++ o ∷ []) (map-set-none zs j) (sym (held_at-map zs j))
  act-map v zs (move_assigns i j) =
      map-set (set zs j none) i (held_at zs j)
      ∙ ap₂ (λ l o. set l i o) (map-set-none zs j) (sym (held_at-map zs j))
  act-map v zs (destroys i) = map-set-none zs i

-- Where an object's value after a call comes from.
abbrev pub Source : Option (ℕ × ℕ) → List (Option (ℕ × ℕ)) → Option (ℕ × ℕ) → Type 0
Source v zs o = (o ≡ none) ⊎ (o ≡ v) ⊎ ((m : ℕ) × (o ≡ held_at zs m))

held_at-set :
    (zs : List (Option (ℕ × ℕ))) (i k : ℕ) (v : Option (ℕ × ℕ))
    → (held_at (set zs i v) k ≡ v) ⊎ (held_at (set zs i v) k ≡ held_at zs k)
held_at-set [] i k v = inr refl
held_at-set (z ∷ zs) zero zero v = inl refl
held_at-set (z ∷ zs) zero (suc k) v = inr refl
held_at-set (z ∷ zs) (suc i) zero v = inr refl
held_at-set (z ∷ zs) (suc i) (suc k) v = held_at-set zs i k v

held_at-snoc :
    (zs : List (Option (ℕ × ℕ))) (k : ℕ) (v : Option (ℕ × ℕ))
    → (held_at (zs ++ v ∷ []) k ≡ v) ⊎ (held_at (zs ++ v ∷ []) k ≡ held_at zs k)
held_at-snoc [] zero v = inl refl
held_at-snoc [] (suc k) v = inr refl
held_at-snoc (z ∷ zs) zero v = inr refl
held_at-snoc (z ∷ zs) (suc k) v = held_at-snoc zs k v

set-Source :
    (v : Option (ℕ × ℕ)) (zs ys : List (Option (ℕ × ℕ))) (i k : ℕ) (w : Option (ℕ × ℕ))
    → Source v zs w
    → Source v zs (held_at ys k)
    → Source v zs (held_at (set ys i w) k)
set-Source v zs ys i k w a b = elim (held_at-set ys i k w) [
  | inl e ↦ subst (Source v zs) (sym e) a
  | inr e ↦ subst (Source v zs) (sym e) b
]

snoc-Source :
    (v : Option (ℕ × ℕ)) (zs ys : List (Option (ℕ × ℕ))) (k : ℕ) (w : Option (ℕ × ℕ))
    → Source v zs w
    → Source v zs (held_at ys k)
    → Source v zs (held_at (ys ++ w ∷ []) k)
snoc-Source v zs ys k w a b = elim (held_at-snoc ys k w) [
  | inl e ↦ subst (Source v zs) (sym e) a
  | inr e ↦ subst (Source v zs) (sym e) b
]

pub act-Source :
    (v : Option (ℕ × ℕ)) (zs : List (Option (ℕ × ℕ))) (c : Call) (k : ℕ)
    → Source v zs (held_at (act v zs c) k)
act-Source v zs constructs k = snoc-Source v zs zs k none (inl refl) (inr (inr (k, refl)))
act-Source v zs (makes i a) k = set-Source v zs zs i k v (inr (inl refl)) (inr (inr (k, refl)))
act-Source v zs (resets i) k = set-Source v zs zs i k none (inl refl) (inr (inr (k, refl)))
act-Source v zs (copies j) k =
    snoc-Source v zs zs k (held_at zs j) (inr (inr (j, refl))) (inr (inr (k, refl)))
act-Source v zs (assigns i j) k =
    set-Source v zs zs i k (held_at zs j) (inr (inr (j, refl))) (inr (inr (k, refl)))
act-Source v zs (moves j) k =
    snoc-Source v zs (set zs j none) k (held_at zs j) (inr (inr (j, refl)))
      (set-Source v zs zs j k none (inl refl) (inr (inr (k, refl))))
act-Source v zs (move_assigns i j) k =
    set-Source v zs (set zs j none) i k (held_at zs j) (inr (inr (j, refl)))
      (set-Source v zs zs j k none (inl refl) (inr (inr (k, refl))))
act-Source v zs (destroys i) k = set-Source v zs zs i k none (inl refl) (inr (inr (k, refl)))

-- The addresses are the same exactly if the numbers are.
abbrev pub Agree : Option (ℕ × ℕ) → Option (ℕ × ℕ) → Type 0
Agree none w = Unit {0}
Agree (some z) none = Unit {0}
Agree (some z) (some w) = (z.0 == w.0) ≡ (z.1 == w.1)

pub Agree-none : (o : Option (ℕ × ℕ)) → Agree o none
Agree-none none = tt
Agree-none (some z) = tt

pub Agree-self : (o : Option (ℕ × ℕ)) → Agree o o
Agree-self none = tt
Agree-self (some z) = ground arith

Agree-sym : (o p : Option (ℕ × ℕ)) → Agree o p → Agree p o
Agree-sym none none h = tt
Agree-sym none (some w) h = tt
Agree-sym (some z) none h = tt
Agree-sym (some z) (some w) h = ground (arith, h)

abbrev pub Matched : List (Option (ℕ × ℕ)) → Type 0
Matched zs = (i j : ℕ) → Agree (held_at zs i) (held_at zs j)

pub Source-Agree :
    (v : Option (ℕ × ℕ)) (zs : List (Option (ℕ × ℕ))) (o p : Option (ℕ × ℕ))
    → Matched zs
    → ((m : ℕ) → Agree v (held_at zs m))
    → Source v zs o
    → Source v zs p
    → Agree o p
Source-Agree v zs o p h f (inl e) b = subst (λ x. Agree x p) (sym e) tt
Source-Agree v zs o p h f (inr a) (inl e) = subst (Agree o) (sym e) (Agree-none o)
Source-Agree v zs o p h f (inr (inl d)) (inr (inl e)) =
    subst (λ x. Agree x p) (sym d) (subst (Agree v) (sym e) (Agree-self v))
Source-Agree v zs o p h f (inr (inl d)) (inr (inr (m, e))) =
    subst (λ x. Agree x p) (sym d) (subst (Agree v) (sym e) (f m))
Source-Agree v zs o p h f (inr (inr (m, d))) (inr (inl e)) =
    subst (λ x. Agree x p) (sym d)
      (subst (Agree (held_at zs m)) (sym e) (Agree-sym v (held_at zs m) (f m)))
Source-Agree v zs o p h f (inr (inr (m, d))) (inr (inr (n, e))) =
    subst (λ x. Agree x p) (sym d) (subst (Agree (held_at zs m)) (sym e) (h m n))

abbrev pub Below : ℕ → Option (ℕ × ℕ) → Type 0
Below n none = Unit {0}
Below n (some z) = z.1 < n

Below-next : (n : ℕ) (o : Option (ℕ × ℕ)) → Below n o → Below (n + 1) o
Below-next n none h = tt
Below-next n (some z) h = omega (arith, h)

pub pair_of-Below : (n : ℕ) (c : Call) → Below (n + 1) (pair_of c n)
pair_of-Below n constructs = tt
pair_of-Below n (makes i a) = omega arith
pair_of-Below n (resets i) = tt
pair_of-Below n (copies j) = tt
pair_of-Below n (assigns i j) = tt
pair_of-Below n (moves j) = tt
pair_of-Below n (move_assigns i j) = tt
pair_of-Below n (destroys i) = tt

pub Source-Below :
    (n : ℕ) (v : Option (ℕ × ℕ)) (zs : List (Option (ℕ × ℕ))) (o : Option (ℕ × ℕ))
    → ((i : ℕ) → Below n (held_at zs i))
    → Below (n + 1) v
    → Source v zs o
    → Below (n + 1) o
Source-Below n v zs o h b (inl e) = subst (Below (n + 1)) (sym e) tt
Source-Below n v zs o h b (inr (inl e)) = subst (Below (n + 1)) (sym e) b
Source-Below n v zs o h b (inr (inr (m, e))) =
    subst (Below (n + 1)) (sym e) (Below-next n (held_at zs m) (h m))
