-- ===== src/Scope/Awaiting.antt =====
-- What `await()` of inc/scope.hpp waits for.
use hermesconcurrencyengine.Common.{
  ℕ, zero, suc, Bool, false, Bool-cases, some, All, ◌⊎◌, inl, inr, ◌+◌, ◌*◌, ◌≤◌, length, replicate,
  true, List, [], ◌∷◌, ◌++◌, append-nil, ◌≡◌, refl, sym, subst, ap, ◌∙◌, arith,
}
use hermesconcurrencyengine.Scope.{
  Root, Scope, Action, receives, parked, awaits, ended, run_root_at, runs_root, step, run, run_new,
}
use hermesconcurrencyengine.Scope.Order.{
  current, Fits, Kept, FromThread, Constructs, run_new-Kept, run_root_at-Kept, run_root-value,
  run_root-ends,
}

ended_all :
    (s : Scope) → Kept s → s.root ≡ ended → (s.awaited ≡ s.added) × (s.root_ch.closed_flag ≡ true)
ended_all s v e =
    let (none_parked, empty, shut) = subst (λ r. Fits r s.root_ch) e v.fits in
    (
      sym (append-nil s.awaited)
          ∙ ap (λ l. s.awaited ++ l) (sym (ap (λ r. current r ++ s.root_ch.queue) e ∙ empty))
          ∙ v.parts,
      shut,
    )

-- Steps of the root awaiter.
abbrev pub rounds : ℕ → Scope → Scope
rounds zero s = s
rounds (suc n) s = rounds n (run_root_at s.root s)

run-rounds : (n : ℕ) (s : Scope) → run s (replicate n runs_root) ≡ some (rounds n s)
unfolding run step
run-rounds zero s = refl
run-rounds (suc n) s = run-rounds n (run_root_at s.root s)

rounds-Kept : (n : ℕ) (s : Scope) → Kept s → Kept (rounds n s)
rounds-Kept zero s v = v
rounds-Kept (suc n) s v = rounds-Kept n (run_root_at s.root s) (run_root_at-Kept s.root s refl v)

-- Two steps for each awaitable in the channel, and one for the `recv` that finds it closed.
drain :
    (q : List ℕ) (s : Scope)
    → s.root ≡ receives
    → s.root_ch.queue ≡ q
    → s.root_ch.closed_flag ≡ true
    → (n : ℕ) × (n ≡ 2 * length q + 1) × ((rounds n s).root ≡ ended)
unfolding run_root_at
drain [] s e empty shut =
    (1, refl, ap (λ r. (run_root_at r s).root) e ∙ ap (λ t. t.root) (run_root-ends s empty shut))
drain (i ∷ rest) s e more shut =
    let t = record s { root_ch = record s.root_ch { queue = rest }; root = awaits i } in
    let u = record t { root = receives; awaited = s.awaited ++ i ∷ [] } in
    let (n, count, done) = drain rest u refl refl shut in
    let first : run_root_at s.root s ≡ t =
      ap (λ r. run_root_at r s) e ∙ run_root-value s i rest more in
    (
      suc (suc n),
      omega (arith, count),
      subst (λ x. (rounds n (run_root_at x.root x)).root ≡ ended) (sym first) done,
    )

drain_at :
    (r : Root) (s : Scope)
    → s.root ≡ r
    → Kept s
    → s.root_ch.closed_flag ≡ true
    → (n : ℕ) × (n ≤ 2 * length s.root_ch.queue + 2) × ((rounds n s).root ≡ ended)
unfolding run_root_at
drain_at receives s e v shut =
    let (n, count, done) = drain s.root_ch.queue s e refl shut in (n, omega (arith, count), done)
drain_at parked s e v shut =
    let fits = subst (λ r. Fits r s.root_ch) e v.fits in absurd (ground (arith, fits, shut))
drain_at (awaits i) s e v shut =
    let u = record s { root = receives; awaited = s.awaited ++ i ∷ [] } in
    let (n, count, done) = drain s.root_ch.queue u refl refl shut in
    (suc n, omega (arith, count), ap (λ r. (rounds n (run_root_at r s)).root) e ∙ done)
drain_at ended s e v shut = (0, omega arith, e)

-- The root awaiter ends within so many steps, and has awaited what was added.
abbrev pub IsDrained : Scope → Type 0
IsDrained s =
    (n : ℕ) × (n ≤ 2 * length s.root_ch.queue + 2)
    × (end : Scope) × (run s (replicate n runs_root) ≡ some end)
    × (end.root ≡ ended)
    × (end.awaited ≡ end.added)

closed-IsDrained : (s : Scope) → Kept s → s.root_ch.closed_flag ≡ true → IsDrained s
closed-IsDrained s kept shut =
    let (n, few, done) = drain_at s.root s refl kept shut in
    let (all_awaited, closed) = ended_all (rounds n s) (rounds-Kept n s kept) done in
    (n, few, rounds n s, run-rounds n s, done, all_awaited)

-- If the awaitables of the constructor and of each `add` come from outside of coroutines, then no
-- call terminates the process; and after any calls of `add` and `await()` and any steps of the root
-- awaiter, the awaitables added are, in order, those awaited, the one being awaited, and those in
-- the channel; and the channel is open, or after at most two steps for each awaitable in it and two
-- more the root awaiter has ended, and has awaited the awaitables added, each once and in order.
pub await_ends :
    (in_coroutine : Bool) (awts : List ℕ) (acts : List Action)
    → Constructs in_coroutine awts
    → All FromThread acts
    → (s : Scope) × (run_new in_coroutine awts acts ≡ some s)
      × (s.awaited ++ (current s.root ++ s.root_ch.queue) ≡ s.added)
      × ((s.root_ch.closed_flag ≡ false) ⊎ IsDrained s)
await_ends in_coroutine awts acts c f =
    let (s, ran, kept) = run_new-Kept in_coroutine awts acts c f in
    (
      s,
      ran,
      kept.parts,
      elim (Bool-cases s.root_ch.closed_flag) [
        | inl shut ↦ inr (closed-IsDrained s kept shut)
        | inr unclosed ↦ inl unclosed
      ],
    )
