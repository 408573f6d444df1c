-- ===== src/SynchronizedList/Order.antt =====
-- The order of the values that go through a list of inc/synchronized_list.hpp.
use hermesconcurrencyengine.Common.{
  ℕ, ◌≡◌, inl, inr, sym, subst, List-cases, Bool-cases, List, [], ◌∷◌, ◌++◌, arith,
}
use hermesconcurrencyengine.SynchronizedList.{close, emplace_back, emplace_front, pop_round}
use hermesconcurrencyengine.SynchronizedList.Schedule.{
  World, Passed, back, front, popped_value, Popper, Action, push_back, push_front, closes, calls,
  turn, notifies, notifies_all, spurious, looks_at, step, run, start,
}

module _ {A : Type 0} where
  -- The values of a deque after what got in and out, which `pop` takes from the front.
  pub data Deque : List (Passed A) → List A → Type 0 where
    empty : Deque [] []
    then_back :
        (h : List (Passed A)) (l : List A) (a : A) → Deque h l → Deque (back a ∷ h) (l ++ a ∷ [])
    then_front :
        (h : List (Passed A)) (l : List A) (a : A) → Deque h l → Deque (front a ∷ h) (a ∷ l)
    then_pop :
        (h : List (Passed A)) (l : List A) (a : A) → Deque h (a ∷ l) → Deque (popped_value a ∷ h) l

  abbrev IsDeque : World A → Type 0
  IsDeque w = Deque w.history w.shared.list

  carried :
      {h : List (Passed A)} {l : List A} (w : World A)
      → Deque h l
      → w.history ≡ h
      → w.shared.list ≡ l
      → IsDeque w
  carried {h = h} {l = l} w v e f =
      subst (λ l'. Deque w.history l') (sym f) (subst (λ h'. Deque h' l) (sym e) v)

  push_back-IsDeque : (w : World A) (a : A) → IsDeque w → IsDeque (step w (push_back a))
  unfolding step emplace_back
  push_back-IsDeque w a v = elim (Bool-cases w.shared.is_closed) [
    | inl shut ↦ carried (step w (push_back a)) v (ground (arith, shut)) (ground (arith, shut))
    | inr unclosed ↦
        carried (step w (push_back a)) (then_back w.history w.shared.list a v)
          (ground (arith, unclosed)) (ground (arith, unclosed))
  ]

  push_front-IsDeque : (w : World A) (a : A) → IsDeque w → IsDeque (step w (push_front a))
  unfolding step emplace_front
  push_front-IsDeque w a v = elim (Bool-cases w.shared.is_closed) [
    | inl shut ↦ carried (step w (push_front a)) v (ground (arith, shut)) (ground (arith, shut))
    | inr unclosed ↦
        carried (step w (push_front a)) (then_front w.history w.shared.list a v)
          (ground (arith, unclosed)) (ground (arith, unclosed))
  ]

  turn-IsDeque : (w : World A) (i : ℕ) → IsDeque w → IsDeque (step w (turn i))
  unfolding step pop_round
  turn-IsDeque w i v = elim (Bool-cases (looks_at i w.poppers)) [
    | inr none_looks ↦
        carried (step w (turn i)) v (ground (arith, none_looks)) (ground (arith, none_looks))
    | inl looking ↦ elim (List-cases w.shared.list) [
      | inl bare ↦
          carried (step w (turn i)) v (ground (arith, looking, bare))
            (ground (arith, looking, bare))
      | inr (a, rest, more) ↦
          carried (step w (turn i)) (then_pop w.history rest a (subst (Deque w.history) more v))
            (ground (arith, looking, more)) (ground (arith, looking, more))
    ]
  ]

  step-IsDeque : (w : World A) (a : Action A) → IsDeque w → IsDeque (step w a)
  unfolding step close
  step-IsDeque w (push_back a) v = push_back-IsDeque w a v
  step-IsDeque w (push_front a) v = push_front-IsDeque w a v
  step-IsDeque w closes v = carried (step w closes) v (ground arith) (ground arith)
  step-IsDeque w (calls i) v = v
  step-IsDeque w (turn i) v = turn-IsDeque w i v
  step-IsDeque w (notifies i) v = carried (step w (notifies i)) v (ground arith) (ground arith)
  step-IsDeque w notifies_all v = carried (step w notifies_all) v (ground arith) (ground arith)
  step-IsDeque w (spurious i) v = v

  run-IsDeque : (acts : List (Action A)) (w : World A) → IsDeque w → IsDeque (run w acts)
  unfolding run
  run-IsDeque [] w v = v
  run-IsDeque (a ∷ acts) w v = run-IsDeque acts (step w a) (step-IsDeque w a v)

  -- With any number of popping threads, in every schedule from a new list of pushes at either end,
  -- closings, pops and notifications: the pushes that let a value in, and the values that `pop`
  -- returned, in the order of the lock, are those of a deque that pops from its front, and the list
  -- has the values that this deque has then.
  pub run-Deque :
      (ps : List Popper) (acts : List (Action A))
      → let w = run (start ps) acts in Deque w.history w.shared.list
  unfolding start
  run-Deque ps acts = run-IsDeque acts (start ps) empty
