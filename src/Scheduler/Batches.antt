-- ===== src/Scheduler/Batches.antt =====
-- A batch of the scheduler of inc/scheduler.hpp, from its first coroutine to its last.
use hermesconcurrencyengine.Common.{
  ℕ, suc, ◌≡◌, refl, ap, sym, subst, ◌∙◌, List, [], ◌∷◌, ◌++◌, append_assoc, append-nil, length,
  arith,
}
use hermesconcurrencyengine.Scheduler
use hermesconcurrencyengine.Scheduler.{
  Scheduler, Worker, between, executes, Outcome, done, yielded, taken,
}
use hermesconcurrencyengine.Scheduler.Threads
use hermesconcurrencyengine.Scheduler.Threads.{World, Action, turn_worker, step, run}

-- What one coroutine does in a batch: it schedules some on its own scheduler, and stops.
pub record Execution : Type 0 where
  pub handle : ℕ
  pub spawned : List ℕ
  pub outcome : Outcome

abbrev pub spawns : List ℕ → List Action → List Action
spawns [] rest = rest
spawns (h ∷ hs) rest = Threads.schedule_local h ∷ spawns hs rest

abbrev pub actions : List Execution → List Action
actions [] = []
actions (x ∷ xs) = Threads.turn ∷ spawns x.spawned (Threads.stops x.outcome ∷ actions xs)

abbrev pub handles : List Execution → List ℕ
handles [] = []
handles (x ∷ xs) = x.handle ∷ handles xs

-- What a coroutine leaves in the local queue.
abbrev pub left_by : Outcome → ℕ → List ℕ
left_by yielded h = h ∷ []
left_by done h = []
left_by taken h = []

abbrev pub left_over : List Execution → List ℕ
left_over [] = []
left_over (x ∷ xs) = x.spawned ++ (left_by x.outcome x.handle ++ left_over xs)

-- A world whose scheduler is at this place, with these queues and these coroutines begun.
record At (w : World) (place : Worker) (queue local begun : List ℕ) : Type 0 where
  worker : w.scheduler.worker ≡ place
  queue_eq : w.scheduler.coroutine_queue ≡ queue
  local_eq : w.scheduler.local_queue ≡ local
  begun_eq : w.begun ≡ begun

turn-At :
    (w : World) (n h : ℕ) (q l b : List ℕ)
    → At w (between (suc n)) q (h ∷ l) b
    → At (step w Threads.turn) (executes n h) q l (b ++ h ∷ [])
unfolding step turn_worker Scheduler.next_coroutine
turn-At w n h q l b v = ground (arith, v)

stops-At :
    (w : World) (n h : ℕ) (o : Outcome) (q l b : List ℕ)
    → At w (executes n h) q l b
    → At (step w (Threads.stops o)) (between n) q (l ++ left_by o h) b
unfolding step Scheduler.finish_coroutine
stops-At w n h done q l b v = ground (arith, v, append-nil l)
stops-At w n h yielded q l b v = ground (arith, v)
stops-At w n h taken q l b v = ground (arith, v, append-nil l)

spawn-At :
    (w : World) (n h g : ℕ) (q l b : List ℕ)
    → At w (executes n h) q l b
    → At (step w (Threads.schedule_local g)) (executes n h) q (l ++ g ∷ []) b
unfolding step Scheduler.schedule_local
spawn-At w n h g q l b v = ground (arith, v)

-- The rest of the actions, after those that are spawned.
spawns-At :
    (gs : List ℕ) (rest : List Action) (w : World) (n h : ℕ) (q l b : List ℕ)
    → At w (executes n h) q l b
    → (u : World) × (run w (spawns gs rest) ≡ run u rest) × At u (executes n h) q (l ++ gs) b
unfolding run
spawns-At [] rest w n h q l b v =
    (w, refl, subst (λ k. At w (executes n h) q k b) (sym (append-nil l)) v)
spawns-At (g ∷ gs) rest w n h q l b v =
    let (u, same, at) =
      spawns-At gs rest (step w (Threads.schedule_local g)) n h q (l ++ g ∷ []) b
        (spawn-At w n h g q l b v) in
    (u, same, subst (λ k. At u (executes n h) q k b) (append_assoc l (g ∷ []) gs) at)

group : (a b c d : List ℕ) → a ++ b ++ c ++ d ≡ a ++ (b ++ c ++ d)
group a b c d = ap (λ k. k ++ d) (append_assoc a b c) ∙ append_assoc a (b ++ c) d

regroup : (a b c d : List ℕ) → a ++ b ++ c ++ d ≡ a ++ (b ++ (c ++ d))
regroup a b c d = append_assoc (a ++ b) c d ∙ append_assoc a b (c ++ d)

batch-At :
    (xs : List Execution) (w : World) (q l b : List ℕ)
    → At w (between (length (handles xs))) q (handles xs ++ l) b
    → At (run w (actions xs)) (between 0) q (l ++ left_over xs) (b ++ handles xs)
unfolding run
batch-At [] w q l b v =
    subst (λ k. At w (between 0) q k (b ++ [])) (sym (append-nil l))
      (subst (λ k. At w (between 0) q l k) (sym (append-nil b)) v)
batch-At (x ∷ xs) w q l b v =
    let n = length (handles xs) in
    let took = turn-At w n x.handle q (handles xs ++ l) b v in
    let (u, same, at) =
      spawns-At x.spawned (Threads.stops x.outcome ∷ actions xs) (step w Threads.turn) n x.handle q
        (handles xs ++ l) (b ++ x.handle ∷ []) took in
    let left = left_by x.outcome x.handle in
    let after = step u (Threads.stops x.outcome) in
    let stopped =
      stops-At u n x.handle x.outcome q (handles xs ++ l ++ x.spawned) (b ++ x.handle ∷ []) at in
    let again = batch-At xs after q (l ++ x.spawned ++ left) (b ++ x.handle ∷ []) (
      subst (λ k. At after (between n) q k (b ++ x.handle ∷ []))
        (group (handles xs) l x.spawned left) stopped) in
    subst
      (λ r.
        At r (between 0) q (l ++ (x.spawned ++ (left ++ left_over xs)))
          (b ++ x.handle ∷ handles xs))
      (sym same)
      (subst (λ k. At (run after (actions xs)) (between 0) q k (b ++ x.handle ∷ handles xs))
        (regroup l x.spawned left (left_over xs))
        (subst
          (λ k.
            At (run after (actions xs)) (between 0) q (l ++ x.spawned ++ left ++ left_over xs) k)
          (append_assoc b (x.handle ∷ []) (handles xs)) again))

-- If the local queue is exactly the coroutines of a batch, and the thread is before the first of
-- them, then the batch executes each of them once, in order, whatever they do; after it, what they
-- scheduled and those that yielded are in the local queue, in order, and the queue of the other
-- threads is as it was.
pub batch_lem :
    (xs : List Execution) (w : World)
    → w.scheduler.worker ≡ between (length (handles xs))
    → w.scheduler.local_queue ≡ handles xs
    → let r = run w (actions xs) in
      (r.begun ≡ w.begun ++ handles xs)
      × (r.scheduler.worker ≡ between 0)
      × (r.scheduler.local_queue ≡ left_over xs)
      × (r.scheduler.coroutine_queue ≡ w.scheduler.coroutine_queue)
batch_lem xs w e f =
    let at = batch-At xs w w.scheduler.coroutine_queue [] w.begun (record {
      worker = e;
      queue_eq = refl;
      local_eq = f ∙ sym (append-nil (handles xs));
      begun_eq = refl;
    }) in
    (at.begun_eq, at.worker, at.local_eq, at.queue_eq)
