-- ===== src/Timer/Schedule/Phases.antt =====
-- Where each timer is in a world of Schedule.antt, and how that follows the phase of the thread.
use hermesconcurrencyengine.Common.{
  ℕ, zero, suc, ◌+◌, ◌≤◌, ◌≡◌, refl, sym, subst, ap, ◌∙◌, ◌⊎◌, inl, inr, Bool, true, false,
  Bool-cases, Option, none, some, Option-cases, List, List-cases, [], ◌∷◌, ◌++◌, All, WhenSome,
  arith, leb, ◌==◌, is_same, if◌then◌else◌, append-nil,
}
use hermesconcurrencyengine.Common
use hermesconcurrencyengine.Timer.{
  Timer, Service, Cancelled, start, cancel, cancel_loop, awaitables,
}
use hermesconcurrencyengine.Timer.Order.{IsSorted, count, start_lem}
use hermesconcurrencyengine.Timer.Schedule.{
  Phase, World, unlaunched, at_top, firing, polls, asleep_until, asleep, undefined_read, exited,
  wake, launch, notified,
}

-- The timers that the thread took and has still to resume.
abbrev pub in_flight : Phase → List Timer
in_flight unlaunched = []
in_flight at_top = []
in_flight (firing ts) = ts
in_flight (polls t) = []
in_flight (asleep_until t) = []
in_flight asleep = []
in_flight undefined_read = []
in_flight exited = []

-- A thread that sleeps has set `waiting_`, so that it is notified.
abbrev pub Heard : Phase → Bool → Type 0
Heard unlaunched waiting = Unit {0}
Heard at_top waiting = Unit {0}
Heard (firing ts) waiting = Unit {0}
Heard (polls t) waiting = Unit {0}
Heard (asleep_until t) waiting = waiting ≡ true
Heard asleep waiting = waiting ≡ true
Heard undefined_read waiting = Unit {0}
Heard exited waiting = Unit {0}

abbrev pub Due : ℕ → List Timer → Type 0
Due now ts = All (λ (t : Timer). t.timeout ≤ now) ts

-- Every awaitable of a started timer is in one place, the timers are in order, and none fires early.
pub record Accounts (w : World) : Type 0 where
  pub counted :
      (a : ℕ)
      → count a w.service.timers
          + count a (in_flight w.phase)
          + count a w.fired
          + Common.count a w.cancelled
        ≡ count a w.started
  pub sorted : IsSorted w.service.timers
  pub due : Due w.now (in_flight w.phase)
  pub not_early : Due w.now w.fired
  pub heard : Heard w.phase w.service.waiting

pub in_flight-wake : (p : Phase) → in_flight (wake p) ≡ in_flight p
in_flight-wake unlaunched = refl
in_flight-wake at_top = refl
in_flight-wake (firing ts) = refl
in_flight-wake (polls t) = refl
in_flight-wake (asleep_until t) = refl
in_flight-wake asleep = refl
in_flight-wake undefined_read = refl
in_flight-wake exited = refl

pub wake-Heard : (p : Phase) (waiting : Bool) → Heard (wake p) waiting
wake-Heard unlaunched waiting = tt
wake-Heard at_top waiting = tt
wake-Heard (firing ts) waiting = tt
wake-Heard (polls t) waiting = tt
wake-Heard (asleep_until t) waiting = tt
wake-Heard asleep waiting = tt
wake-Heard undefined_read waiting = tt
wake-Heard exited waiting = tt

pub in_flight-launch : (p : Phase) → in_flight (launch p) ≡ in_flight p
in_flight-launch unlaunched = refl
in_flight-launch at_top = refl
in_flight-launch (firing ts) = refl
in_flight-launch (polls t) = refl
in_flight-launch (asleep_until t) = refl
in_flight-launch asleep = refl
in_flight-launch undefined_read = refl
in_flight-launch exited = refl

pub launch-Heard : (p : Phase) (waiting : Bool) → Heard (launch p) waiting
launch-Heard unlaunched waiting = tt
launch-Heard at_top waiting = tt
launch-Heard (firing ts) waiting = tt
launch-Heard (polls t) waiting = tt
launch-Heard (asleep_until t) waiting = tt
launch-Heard asleep waiting = tt
launch-Heard undefined_read waiting = tt
launch-Heard exited waiting = tt

pub in_flight-notified : (waiting : Bool) (p : Phase) → in_flight (notified waiting p) ≡ in_flight p
in_flight-notified true p = in_flight-wake p
in_flight-notified false p = refl

pub notified-Heard :
    (waiting : Bool) (p : Phase) → Heard p waiting → Heard (notified waiting p) false
notified-Heard true p v = wake-Heard p false
notified-Heard false p v = v

pub in_flight-start :
    (running waiting : Bool) (p : Phase)
    → in_flight (if running then notified waiting p else launch p) ≡ in_flight p
in_flight-start true waiting p = in_flight-notified waiting p
in_flight-start false waiting p = in_flight-launch p

pub start-Heard :
    (running waiting : Bool) (p : Phase)
    → Heard p waiting
    → Heard (if running then notified waiting p else launch p) false
start-Heard true waiting p v = notified-Heard waiting p v
start-Heard false waiting p v = launch-Heard p false

pub Due-later : (now ticks : ℕ) (ts : List Timer) → Due now ts → Due (now + ticks) ts
Due-later now ticks [] d = tt
Due-later now ticks (t ∷ ts) d = (omega (arith, d.0), Due-later now ticks ts d.1)

pub count-start :
    (s : Service) (t : Timer) (a : ℕ)
    → count a (start s t).timers ≡ count a s.timers + count a (t ∷ [])
count-start s t a = let (ordered, listed) = start_lem s t a in listed

pub count-awaitables : (a : ℕ) (ts : List Timer) → Common.count a (awaitables ts) ≡ count a ts
unfolding awaitables
count-awaitables a [] = refl
count-awaitables a (t ∷ ts) = ground (arith, count-awaitables a ts)

pub IsSorted-tail : (t : Timer) (ts : List Timer) → IsSorted (t ∷ ts) → IsSorted ts
IsSorted-tail t ts v = v.1

pub cancel-cases :
    (s : Service) (sid : ℕ) (c : Cancelled)
    → cancel 1 s sid ≡ some c
    → (c ≡ record { next = s; result = false; resumed = [] })
      ⊎ (t : Timer) × (ts : List Timer) × (s.timers ≡ t ∷ ts)
        × (c ≡ record {
          next = record s { waiting = false; timers = ts };
          result = true;
          resumed = t.awt ∷ [];
        })
unfolding cancel cancel_loop
cancel-cases s sid c e = elim (List-cases s.timers) [
  | inl empty ↦ inl (ground (arith, e, empty))
  | inr (t, ts, more) ↦ elim (Bool-cases (t.sid == sid)) [
    | inl found ↦ elim (Bool-cases (sid == 0)) [
      | inl unset ↦ inl (ground (arith, e, unset))
      | inr set ↦ elim (Bool-cases s.running) [
        | inl on ↦ inr (t, ts, more, ground (arith, e, more, found, set, on))
        | inr off ↦ inl (ground (arith, e, set, off))
      ]
    ]
    | inr other ↦ inl (ground (arith, e, more, other))
  ]
]
