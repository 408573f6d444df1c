-- ===== src/Coroutine/Ownership.antt =====
-- Each frame has one owner: the operations of Coroutine.antt in any order.
use hermesconcurrencyengine.Common.{
  ℕ, zero, suc, ◌+◌, ◌<◌, Option, none, some, List, [], ◌∷◌, ◌++◌, set, length, length-set,
  length-append, option_to_list, if◌then◌else◌, ltb, ◌≡◌, refl, ap, count, count-append, is_same,
  arith, Bool-cases, inl, inr, ltb→lt,
}
use hermesconcurrencyengine.Coroutine.{
  Objects, handle_at, construct, release, destroy_, reset, reset_to, swap, move_construct,
}

pub data Operation : Type 0 where
  constructs : Option ℕ → Operation
  moves : ℕ → Operation
  assigns : ℕ → ℕ → Operation
  releases : ℕ → Operation
  resets : ℕ → Operation
  resets_to : ℕ → ℕ → Operation

-- An operation on an address with no object is not a program's, and changes nothing here.
abbrev at : ℕ → (Objects → Objects) → Objects → Objects
at a f o = if ltb a (length o.coroutines) then f o else o

unfoldable pub perform : Operation → Objects → Objects
perform (constructs h) o = construct h o
perform (moves b) o = at b (move_construct b) o
perform (assigns a b) o = at a (at b (swap a b)) o
perform (releases a) o = at a (release a) o
perform (resets a) o = at a (reset a) o
perform (resets_to a h) o = at a (reset_to a h) o

-- The handle that an operation brings from outside.
abbrev taken_in : Operation → Objects → List ℕ
taken_in (constructs h) o = option_to_list h
taken_in (moves b) o = []
taken_in (assigns a b) o = []
taken_in (releases a) o = []
taken_in (resets a) o = []
taken_in (resets_to a h) o = if ltb a (length o.coroutines) then h ∷ [] else []

-- The state after the operations, and the handles that came from outside.
unfoldable pub run : List Operation → Objects → Objects
run [] o = o
run (p ∷ rest) o = run rest (perform p o)

unfoldable pub taken : List Operation → Objects → List ℕ
taken [] o = []
taken (p ∷ rest) o = taken_in p o ++ taken rest (perform p o)

abbrev is_held : ℕ → Option ℕ → ℕ
is_held h none = 0
is_held h (some g) = is_same h g

-- The objects that hold this handle.
abbrev pub owners : ℕ → List (Option ℕ) → ℕ
owners h [] = 0
owners h (c ∷ cs) = is_held h c + owners h cs

-- Everywhere that a handle may be.
abbrev pub places : ℕ → Objects → ℕ
places h o = owners h o.coroutines + count h o.released + count h o.destroyed

owners-append : (h : ℕ) (xs ys : List (Option ℕ)) → owners h (xs ++ ys) ≡ owners h xs + owners h ys
owners-append h [] ys = omega arith
owners-append h (x ∷ xs) ys = ground (arith, owners-append h xs ys)

count-option :
    (h : ℕ) (c : Option ℕ) (gs : List ℕ)
    → count h (option_to_list c ++ gs) ≡ is_held h c + count h gs
count-option h none gs = omega arith
count-option h (some g) gs = omega arith

owners-set :
    (h : ℕ) (cs : List (Option ℕ)) (a : ℕ) (c : Option ℕ)
    → a < length cs
    → owners h (set cs a c) + is_held h (handle_at cs a) ≡ owners h cs + is_held h c
unfolding handle_at
owners-set h [] a c l = absurd (omega arith)
owners-set h (x ∷ xs) zero c l = omega arith
owners-set h (x ∷ xs) (suc a) c l = omega (arith, owners-set h xs a c (omega arith))

handle_at-set :
    (cs : List (Option ℕ)) (a b : ℕ) → handle_at (set cs a (handle_at cs b)) b ≡ handle_at cs b
unfolding handle_at
handle_at-set [] a b = refl
handle_at-set (x ∷ xs) zero zero = refl
handle_at-set (x ∷ xs) zero (suc b) = refl
handle_at-set (x ∷ xs) (suc a) zero = refl
handle_at-set (x ∷ xs) (suc a) (suc b) = handle_at-set xs a b

places-swap :
    (h a b : ℕ) (o : Objects)
    → a < length o.coroutines
    → b < length o.coroutines
    → places h (swap a b o) ≡ places h o
unfolding swap
places-swap h a b o la lb =
    let g = handle_at o.coroutines b in
    let cs = set o.coroutines a g in
    let second =
      owners-set h cs b (handle_at o.coroutines a)
        (omega (arith, lb, length-set o.coroutines a g)) in
    omega (
      arith,
      owners-set h o.coroutines a g la,
      second,
      ap (is_held h) (handle_at-set o.coroutines a b),
    )

places-construct :
    (h : ℕ) (c : Option ℕ) (o : Objects) → places h (construct c o) ≡ places h o + is_held h c
unfolding construct
places-construct h c o = omega (arith, owners-append h o.coroutines (c ∷ []))

places-release :
    (h a : ℕ) (o : Objects) → a < length o.coroutines → places h (release a o) ≡ places h o
unfolding release
places-release h a o l = omega (
  arith,
  owners-set h o.coroutines a none l,
  count-option h (handle_at o.coroutines a) o.released,
)

places-reset_to :
    (h a : ℕ) (c : ℕ) (o : Objects)
    → a < length o.coroutines
    → places h (reset_to a c o) ≡ places h o + is_same h c
unfolding reset_to destroy_
places-reset_to h a c o l = omega (
  arith,
  owners-set h o.coroutines a (some c) l,
  count-option h (handle_at o.coroutines a) o.destroyed,
)

places-reset : (h a : ℕ) (o : Objects) → a < length o.coroutines → places h (reset a o) ≡ places h o
unfolding reset destroy_
places-reset h a o l = omega (
  arith,
  owners-set h o.coroutines a none l,
  count-option h (handle_at o.coroutines a) o.destroyed,
)

places-move_construct :
    (h b : ℕ) (o : Objects) → b < length o.coroutines → places h (move_construct b o) ≡ places h o
unfolding move_construct construct
places-move_construct h b o l =
    let longer = length-append o.coroutines (none ∷ []) in
    omega (
      arith,
      places-construct h none o,
      places-swap h (length o.coroutines) b (construct none o) (omega (arith, longer))
          (omega (arith, longer)),
    )

places-at :
    (h a : ℕ) (f : Objects → Objects) (o : Objects)
    → (a < length o.coroutines → places h (f o) ≡ places h o)
    → places h (at a f o) ≡ places h o
places-at h a f o same = elim (Bool-cases (ltb a (length o.coroutines))) [
  | inl inside ↦ rw inside (same (ltb→lt a (length o.coroutines) inside))
  | inr outside ↦ rw outside refl
]

places-perform :
    (h : ℕ) (p : Operation) (o : Objects)
    → places h (perform p o) ≡ places h o + count h (taken_in p o)
unfolding perform
places-perform h (constructs none) o = places-construct h none o
places-perform h (constructs (some g)) o = omega (arith, places-construct h (some g) o)
places-perform h (moves b) o =
    omega (arith, places-at h b (move_construct b) o (places-move_construct h b o))
places-perform h (assigns a b) o = omega (
  arith,
  places-at h a (at b (swap a b)) o (λ la. places-at h b (swap a b) o (places-swap h a b o la)),
)
places-perform h (releases a) o = omega (arith, places-at h a (release a) o (places-release h a o))
places-perform h (resets a) o = omega (arith, places-at h a (reset a) o (places-reset h a o))
places-perform h (resets_to a g) o = elim (Bool-cases (ltb a (length o.coroutines))) [
  | inl inside ↦
      rw inside (omega (arith, places-reset_to h a g o (ltb→lt a (length o.coroutines) inside)))
  | inr outside ↦ rw outside (omega arith)
]

-- After any operations on coroutine objects, a handle is held by objects, was released, or was
-- destroyed, together as often as it was at the start and has come from outside since: so a handle
-- that comes once has one owner, is destroyed at most once, and is held by no object after that.
pub owned_once :
    (h : ℕ) (ops : List Operation) (o : Objects)
    → places h (run ops o) ≡ places h o + count h (taken ops o)
unfolding run taken
owned_once h [] o = omega arith
owned_once h (p ∷ rest) o = omega (
  arith,
  owned_once h rest (perform p o),
  places-perform h p o,
  count-append h (taken_in p o) (taken rest (perform p o)),
)
