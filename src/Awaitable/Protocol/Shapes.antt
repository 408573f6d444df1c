-- ===== src/Awaitable/Protocol/Shapes.antt =====
-- The states that an awaitable and its one `resume` go through: each `Shape` fixes every field but the
-- operation's own state.
use hermesconcurrencyengine.Common.{
  ℕ, Bool, true, false, Option, none, some, List, [], ◌∷◌, ◌<◌, ◌≡◌,
}
use hermesconcurrencyengine.Awaitable.{Implementation, defer, lock}
use hermesconcurrencyengine.Awaitable.Protocol.{
  Awaiter, Resumer, World, arrives, holds, suspended, asleep, woken, finished, coming, sends,
  notifies, returned,
}

pub data Shape (S : Type 0) : Type 0 where
  at_start : Option ℕ → S → Shape S
  resumed_first : Option ℕ → S → Shape S
  about_to_suspend : Option ℕ → S → Shape S
  stored : ℕ → S → Shape S
  taken : ℕ → S → Shape S
  scheduled : ℕ → S → Shape S
  blocked : S → Shape S
  stirred : S → Shape S
  unblocked : S → Shape S
  unblocked_stirred : S → Shape S
  notified : S → Shape S
  unblocked_finished : S → Shape S
  over : Option ℕ → S → Shape S
  continued : ℕ → S → Shape S

module _ {S : Type 0} where
  abbrev pub world :
      S → Bool → Option ℕ → Bool → Bool → Option ℕ → Bool → Awaiter → Resumer → List ℕ → World S
  world s awaited handle tt locked caller ready awaiter resumer destination = record {
    interface = record {
      state = s;
      awaited = awaited;
      tt = tt;
      handle = handle;
      locked = locked;
      await_policy = defer;
      resume_policy = lock;
    };
    caller = caller;
    thread_ready = ready;
    awaiter = awaiter;
    resumer = resumer;
    destination = destination;
  }

  abbrev pub world_of : Shape S → World S
  world_of (at_start c s) = world s false none false false c false arrives coming []
  world_of (resumed_first c s) = world s false none false false c false arrives returned []
  world_of (about_to_suspend c s) = world s true none false true c false holds coming []
  world_of (stored h s) = world s true (some h) false false (some h) false suspended coming []
  world_of (taken h s) = world s true none false false (some h) false suspended (sends h) []
  world_of (scheduled h s) =
      world s true none false false (some h) false suspended returned (h ∷ [])
  world_of (blocked s) = world s true none true false none false asleep coming []
  world_of (stirred s) = world s true none true false none false woken coming []
  world_of (unblocked s) = world s true none false false none true asleep notifies []
  world_of (unblocked_stirred s) = world s true none false false none true woken notifies []
  world_of (notified s) = world s true none false false none true woken returned []
  world_of (unblocked_finished s) = world s true none false false none false finished notifies []
  world_of (over c s) = world s true none false false c false finished returned []
  world_of (continued h s) = world s true none false false (some h) false finished returned (h ∷ [])

  -- A bound on the actions, spurious wakeups aside, that are left.
  abbrev pub rank : Shape S → ℕ
  rank (at_start c s) = 6
  rank (resumed_first c s) = 3
  rank (about_to_suspend c s) = 5
  rank (stored h s) = 4
  rank (taken h s) = 3
  rank (scheduled h s) = 1
  rank (blocked s) = 4
  rank (stirred s) = 5
  rank (unblocked s) = 3
  rank (unblocked_stirred s) = 4
  rank (notified s) = 2
  rank (unblocked_finished s) = 2
  rank (over c s) = 0
  rank (continued h s) = 0

module _ {S M : Type 0} (I : Implementation S M) (Fresh : S → Type 0) (m : M) where
  -- The state after `on_resume m` on a fresh one.
  abbrev pub Over : S → Type 0
  Over s = (s0 : S) × Fresh s0 × (s ≡ I.on_resume m s0)

  -- Before `resume` the operation is fresh; after it, its state is what `on_resume m` made.
  abbrev pub Fits : Shape S → Type 0
  Fits (at_start c s) = Fresh s
  Fits (resumed_first c s) = Over s
  Fits (about_to_suspend c s) = Fresh s
  Fits (stored h s) = Fresh s
  Fits (taken h s) = Over s
  Fits (scheduled h s) = Over s
  Fits (blocked s) = Fresh s
  Fits (stirred s) = Fresh s
  Fits (unblocked s) = Over s
  Fits (unblocked_stirred s) = Over s
  Fits (notified s) = Over s
  Fits (unblocked_finished s) = Over s
  Fits (over c s) = Over s
  Fits (continued h s) = Over s

  abbrev pub Consistent : World S → Type 0
  Consistent w = (p : Shape S) × (w ≡ world_of p) × Fits p

  abbrev pub ConsistentBelow : ℕ → World S → Type 0
  ConsistentBelow n w = (p : Shape S) × (w ≡ world_of p) × Fits p × (rank p < n)
