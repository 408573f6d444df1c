-- ===== src/Scope/Order.antt =====
-- The order of the awaitables of a scope of inc/scope.hpp, kept by every call and step.
use hermesconcurrencyengine.Common.{
  ℕ, Bool, true, false, none, some, All, ◌⊎◌, Bool-cases, List, [], ◌∷◌, ◌++◌, List-cases,
  append_assoc, append-nil, ◌≡◌, refl, sym, subst, ap, ◌∙◌, inl, inr, arith,
}
use hermesconcurrencyengine.Channel.{fail_receivers}
use hermesconcurrencyengine.Channel.Unlimited
use hermesconcurrencyengine.Channel.Unlimited.{
  Unlimited, send_on_ready, serve_receiver, recv_on_ready, close_channel,
}
use hermesconcurrencyengine.Scope.{
  Root, Scope, Action, receives, parked, awaits, ended, send_released, add_, add, empty_scope, make,
  await, run_root_at, adds, runs_root, calls_await, step, run, run_new,
}

-- The awaitable that the root awaiter is at.
abbrev pub current : Root → List ℕ
current receives = []
current parked = []
current (awaits i) = i ∷ []
current ended = []

-- What the phase of the root awaiter says of the channel.
abbrev pub Fits : Root → Unlimited ℕ → Type 0
Fits receives u = u.parked_recv ≡ []
Fits parked u = (u.parked_recv ≡ 0 ∷ []) × (u.queue ≡ []) × (u.closed_flag ≡ false)
Fits (awaits i) u = u.parked_recv ≡ []
Fits ended u = (u.parked_recv ≡ []) × (u.queue ≡ []) × (u.closed_flag ≡ true)

-- The awaitables added are, in order, those awaited, the one being awaited, and those in the channel.
pub record Kept (s : Scope) : Type 0 where
  pub parts : s.awaited ++ (current s.root ++ s.root_ch.queue) ≡ s.added
  pub fits : Fits s.root s.root_ch

module _ (s : Scope) (i : ℕ) where
  send_released-waiting :
      s.root_ch.closed_flag ≡ false
      → s.root_ch.parked_recv ≡ []
      → send_released s i ≡ record s {
        root_ch = record s.root_ch { queue = s.root_ch.queue ++ i ∷ [] };
        added = s.added ++ i ∷ [];
      }
  unfolding send_released send_on_ready serve_receiver
  send_released-waiting o p = ground (arith, o, p)

  send_released-parked :
      s.root_ch.closed_flag ≡ false
      → s.root_ch.parked_recv ≡ 0 ∷ []
      → s.root_ch.queue ≡ []
      → send_released s i ≡ record s {
        root_ch = record s.root_ch { queue = []; parked_recv = [] };
        root = awaits i;
        added = s.added ++ i ∷ [];
      }
  unfolding send_released send_on_ready serve_receiver
  send_released-parked o p q = ground (arith, o, p, q)

append_end :
    (a c q : List ℕ) (i : ℕ) {d : List ℕ}
    → a ++ (c ++ q) ≡ d
    → a ++ (c ++ (q ++ i ∷ [])) ≡ d ++ i ∷ []
append_end a c q i e =
    ap (λ l. a ++ l) (sym (append_assoc c q (i ∷ [])))
    ∙ sym (append_assoc a (c ++ q) (i ∷ []))
    ∙ ap (λ l. l ++ i ∷ []) e

-- A send of an open scope, in each phase.
send_at-Kept :
    (r : Root) (s : Scope) (i : ℕ)
    → s.root ≡ r
    → s.root_ch.closed_flag ≡ false
    → Kept s
    → Kept (send_released s i) × ((send_released s i).root_ch.closed_flag ≡ false)
send_at-Kept receives s i e o v =
    let fits = subst (λ r. Fits r s.root_ch) e v.fits in
    subst (λ t. Kept t × (t.root_ch.closed_flag ≡ false)) (sym (send_released-waiting s i o fits))
      (
        record {
          parts = append_end s.awaited (current s.root) s.root_ch.queue i v.parts;
          fits =
              subst (λ r. Fits r (record s.root_ch { queue = s.root_ch.queue ++ i ∷ [] })) (sym e)
                fits;
        },
        o,
      )
send_at-Kept parked s i e o v =
    let (waits, empty, unclosed) = subst (λ r. Fits r s.root_ch) e v.fits in
    let all_awaited : s.awaited ≡ s.added =
      sym (append-nil s.awaited)
      ∙ ap (λ l. s.awaited ++ l) (sym (ap (λ r. current r ++ s.root_ch.queue) e ∙ empty))
      ∙ v.parts in
    subst (λ t. Kept t × (t.root_ch.closed_flag ≡ false))
      (sym (send_released-parked s i o waits empty))
      (record { parts = ap (λ l. l ++ i ∷ []) all_awaited; fits = refl }, o)
send_at-Kept (awaits j) s i e o v =
    let fits = subst (λ r. Fits r s.root_ch) e v.fits in
    subst (λ t. Kept t × (t.root_ch.closed_flag ≡ false)) (sym (send_released-waiting s i o fits))
      (
        record {
          parts = append_end s.awaited (current s.root) s.root_ch.queue i v.parts;
          fits =
              subst (λ r. Fits r (record s.root_ch { queue = s.root_ch.queue ++ i ∷ [] })) (sym e)
                fits;
        },
        o,
      )
send_at-Kept ended s i e o v =
    let fits = subst (λ r. Fits r s.root_ch) e v.fits in absurd (ground (arith, fits, o))

add_-Kept :
    (awts : List ℕ) (s : Scope)
    → s.root_ch.closed_flag ≡ false
    → Kept s
    → (t : Scope) × (add_ false s awts ≡ some t) × Kept t
unfolding add_
add_-Kept [] s o v = (s, refl, v)
add_-Kept (i ∷ rest) s o v =
    let (kept, unclosed) = send_at-Kept s.root s i refl o v in
    add_-Kept rest (send_released s i) unclosed kept

add-Kept :
    (awts : List ℕ) (s : Scope)
    → Kept s
    → (t : Scope) × (step s (adds false awts) ≡ some t) × Kept t
unfolding step add
add-Kept awts s v = elim (Bool-cases s.root_ch.closed_flag) [
  | inl shut ↦ (s, ground (arith, shut), v)
  | inr unclosed ↦
      let (t, done, kept) = add_-Kept awts s unclosed v in (t, ground (arith, unclosed, done), kept)
]

-- `close()` of an open channel, with no receiver parked and with the root awaiter parked.
module _ (s : Scope) where
  await-waiting :
      s.root_ch.closed_flag ≡ false
      → s.root_ch.parked_recv ≡ []
      → await s ≡ record s { root_ch = record s.root_ch { closed_flag = true; parked_recv = [] } }
  unfolding await close_channel fail_receivers
  await-waiting o p = ground (arith, o, p)

  await-parked :
      s.root_ch.closed_flag ≡ false
      → s.root_ch.parked_recv ≡ 0 ∷ []
      → await s ≡ record s {
        root_ch = record s.root_ch { closed_flag = true; parked_recv = [] };
        root = ended;
      }
  unfolding await close_channel fail_receivers
  await-parked o p = ground (arith, o, p)

  await-closed : s.root_ch.closed_flag ≡ true → await s ≡ s
  unfolding await
  await-closed c = ground (arith, c)

await_open-Kept :
    (r : Root) (s : Scope) → s.root ≡ r → s.root_ch.closed_flag ≡ false → Kept s → Kept (await s)
await_open-Kept receives s e o v =
    subst Kept (sym (await-waiting s o (subst (λ r. Fits r s.root_ch) e v.fits))) (record {
      parts = v.parts;
      fits =
          subst (λ r. Fits r (record s.root_ch { closed_flag = true; parked_recv = [] })) (sym e)
            refl;
    })
await_open-Kept parked s e o v =
    let (waits, empty, unclosed) = subst (λ r. Fits r s.root_ch) e v.fits in
    subst Kept (sym (await-parked s o waits)) (record {
      parts = ap (λ r. s.awaited ++ (current r ++ s.root_ch.queue)) (sym e) ∙ v.parts;
      fits = (refl, empty, refl);
    })
await_open-Kept (awaits i) s e o v =
    subst Kept (sym (await-waiting s o (subst (λ r. Fits r s.root_ch) e v.fits))) (record {
      parts = v.parts;
      fits =
          subst (λ r. Fits r (record s.root_ch { closed_flag = true; parked_recv = [] })) (sym e)
            refl;
    })
await_open-Kept ended s e o v =
    let fits = subst (λ r. Fits r s.root_ch) e v.fits in absurd (ground (arith, fits, o))

await-Kept : (s : Scope) → Kept s → Kept (await s)
await-Kept s v = elim (Bool-cases s.root_ch.closed_flag) [
  | inl shut ↦ subst Kept (sym (await-closed s shut)) v
  | inr unclosed ↦ await_open-Kept s.root s refl unclosed v
]

-- The three answers of `recv`.
module _ (s : Scope) where
  pub run_root-value :
      (i : ℕ) (rest : List ℕ)
      → s.root_ch.queue ≡ i ∷ rest
      → run_root_at receives s
        ≡ record s { root_ch = record s.root_ch { queue = rest }; root = awaits i }
  unfolding run_root_at recv_on_ready
  run_root-value i rest q = ground (arith, q)

  run_root-parks :
      s.root_ch.queue ≡ []
      → s.root_ch.closed_flag ≡ false
      → run_root_at receives s ≡ record s {
        root_ch = record s.root_ch { parked_recv = s.root_ch.parked_recv ++ 0 ∷ [] };
        root = parked;
      }
  unfolding run_root_at recv_on_ready
  run_root-parks q o = ground (arith, q, o)

  pub run_root-ends :
      s.root_ch.queue ≡ []
      → s.root_ch.closed_flag ≡ true
      → run_root_at receives s ≡ record s { root = ended }
  unfolding run_root_at recv_on_ready
  run_root-ends q c = ground (arith, q, c)

receives-Kept : (s : Scope) → s.root ≡ receives → Kept s → Kept (run_root_at receives s)
receives-Kept s e v =
    let none_parked = subst (λ r. Fits r s.root_ch) e v.fits in
    let parts = ap (λ r. s.awaited ++ (current r ++ s.root_ch.queue)) (sym e) ∙ v.parts in
    elim (List-cases s.root_ch.queue) [
      | inl empty ↦ elim (Bool-cases s.root_ch.closed_flag) [
        | inl shut ↦
            subst Kept (sym (run_root-ends s empty shut))
              (record { parts = parts; fits = (none_parked, empty, shut) })
        | inr unclosed ↦
            subst Kept (sym (run_root-parks s empty unclosed)) (record {
              parts = parts;
              fits = (ap (λ l. l ++ 0 ∷ []) none_parked, empty, unclosed);
            })
      ]
      | inr (i, rest, more) ↦
          subst Kept (sym (run_root-value s i rest more))
            (record { parts = ap (λ l. s.awaited ++ l) (sym more) ∙ parts; fits = none_parked })
    ]

pub run_root_at-Kept : (r : Root) (s : Scope) → s.root ≡ r → Kept s → Kept (run_root_at r s)
unfolding run_root_at
run_root_at-Kept receives s e v = receives-Kept s e v
run_root_at-Kept parked s e v = v
run_root_at-Kept (awaits i) s e v = record {
  parts =
      append_assoc s.awaited (i ∷ []) s.root_ch.queue
      ∙ ap (λ r. s.awaited ++ (current r ++ s.root_ch.queue)) (sym e)
      ∙ v.parts;
  fits = subst (λ r. Fits r s.root_ch) e v.fits;
}
run_root_at-Kept ended s e v = v

-- A call of `add` is by a thread that runs no coroutine.
abbrev pub FromThread : Action → Type 0
FromThread (adds in_coroutine awts) = in_coroutine ≡ false
FromThread runs_root = Unit {0}
FromThread calls_await = Unit {0}

step-Kept :
    (s : Scope) (a : Action) → FromThread a → Kept s → (t : Scope) × (step s a ≡ some t) × Kept t
unfolding step
step-Kept s (adds true awts) f v = absurd (ground (arith, f))
step-Kept s (adds false awts) f v = add-Kept awts s v
step-Kept s runs_root f v = (run_root_at s.root s, refl, run_root_at-Kept s.root s refl v)
step-Kept s calls_await f v = (await s, refl, await-Kept s v)

pub run-Kept :
    (acts : List Action) (s : Scope)
    → All FromThread acts
    → Kept s
    → (t : Scope) × (run s acts ≡ some t) × Kept t
unfolding run
run-Kept [] s f v = (s, refl, v)
run-Kept (a ∷ rest) s f v =
    let (t, stepped, kept) = step-Kept s a f.0 v in
    let (u, ran, kept_then) = run-Kept rest t f.1 kept in
    (u, ap (λ o. elim o [ none ↦ none | some x ↦ run x rest ]) stepped ∙ ran, kept_then)

empty-Kept : Kept empty_scope
unfolding empty_scope Unlimited.make
empty-Kept = record { parts = refl; fits = refl }

-- The constructor has awaitables only outside of coroutines.
abbrev pub Constructs : Bool → List ℕ → Type 0
Constructs in_coroutine awts = (in_coroutine ≡ false) ⊎ (awts ≡ [])

make-Kept :
    (in_coroutine : Bool) (awts : List ℕ)
    → Constructs in_coroutine awts
    → (t : Scope) × (make in_coroutine awts ≡ some t) × Kept t
unfolding make empty_scope Unlimited.make
make-Kept false awts c = add_-Kept awts empty_scope refl empty-Kept
make-Kept true [] c = (empty_scope, refl, empty-Kept)
make-Kept true (i ∷ awts) c = absurd (ground (arith, c))

pub run_new-Kept :
    (in_coroutine : Bool) (awts : List ℕ) (acts : List Action)
    → Constructs in_coroutine awts
    → All FromThread acts
    → (t : Scope) × (run_new in_coroutine awts acts ≡ some t) × Kept t
unfolding run_new
run_new-Kept in_coroutine awts acts c f =
    let (s, made, kept) = make-Kept in_coroutine awts c in
    let (t, ran, kept_then) = run-Kept acts s f kept in
    (t, ap (λ o. elim o [ none ↦ none | some x ↦ run x acts ]) made ∙ ran, kept_then)
