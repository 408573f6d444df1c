-- ===== src/Scheduler/Tests.antt =====
-- The scheduler of inc/scheduler.hpp with a few coroutines.
use hermesconcurrencyengine.Common.{
  ℕ, length, ◌+◌, ◌≡◌, refl, none, some, false, List, [], ◌∷◌, ◌++◌,
}
use hermesconcurrencyengine.Scheduler
use hermesconcurrencyengine.Scheduler.{
  Scheduler, State, executing, suspended, halted, waits_resume, returned, between, done, yielded,
  taken, make,
}
use hermesconcurrencyengine.Scheduler.Threads
use hermesconcurrencyengine.Scheduler.Threads.{
  World, Action, turn_worker, turn, stops, spurious, run, start, step,
}
use hermesconcurrencyengine.Scheduler.Wakeups.{IsPlaced, scheduler_sleeps}
use hermesconcurrencyengine.Scheduler.Conservation.{count, held, handles_conserved}
use hermesconcurrencyengine.Scheduler.Batches.{Execution, actions, batch_lem}
use hermesconcurrencyengine.Scheduler.Throwing.{throw_from, thrown-conserved}
use hermesconcurrencyengine.Scheduler.Tasks
use hermesconcurrencyengine.Scheduler.Tasks.{Tasks}
use hermesconcurrencyengine.Scheduler.Tasks.Lost.{NeverReturns, schedule-halted}

-- The thread sleeps, is woken by a coroutine, executes it and the one that it schedules, and sleeps.
abbrev script : List Action
script =
    turn
    ∷ Threads.schedule 5
    ∷ turn
    ∷ turn
    ∷ Threads.schedule_local 6
    ∷ stops yielded
    ∷ turn
    ∷ turn
    ∷ stops done
    ∷ Threads.suspend
    ∷ turn
    ∷ stops taken
    ∷ turn
    ∷ Threads.resume
    ∷ turn
    ∷ []

scheduler_sleeps_example : IsPlaced (run start script).scheduler
scheduler_sleeps_example = scheduler_sleeps script

handles_conserved_example :
    let w = run start script in count 5 w.scheduled ≡ held 5 w.scheduler + count 5 w.gone
handles_conserved_example = handles_conserved 5 script

abbrev executions : List Execution
executions =
    record { handle = 5; spawned = 7 ∷ []; outcome = yielded }
    ∷ record { handle = 6; spawned = []; outcome = done }
    ∷ []

abbrev batch : Scheduler
batch = record {
  state = executing;
  coroutine_queue = 9 ∷ [];
  local_queue = 5 ∷ 6 ∷ [];
  batch_size = 2;
  waiting_for_resume = false;
  waiting_for_coroutines = false;
  worker = between 2;
}

abbrev world : World
world = record { scheduler = batch; scheduled = 5 ∷ 6 ∷ 9 ∷ []; begun = []; gone = [] }

batch_lem_example :
    let r = run world (actions executions) in
    (r.begun ≡ [] ++ (5 ∷ 6 ∷ []))
    × (r.scheduler.worker ≡ between 0)
    × (r.scheduler.local_queue ≡ 7 ∷ 5 ∷ [])
    × (r.scheduler.coroutine_queue ≡ 9 ∷ [])
batch_lem_example = batch_lem executions world refl refl

-- As far as the execution of 5, which has scheduled 6.
abbrev executing_five : List Action
executing_five =
    turn ∷ Threads.schedule 5 ∷ turn ∷ turn ∷ Threads.schedule_local 6 ∷ Threads.schedule 8 ∷ []

thrown-conserved_example :
    let w = run start executing_five in
    let t = throw_from w.scheduler.worker w.scheduler in
    (t.scheduler.worker ≡ returned)
    × (t.scheduler.state ≡ w.scheduler.state)
    × (t.scheduler.local_queue ≡ [])
    × (Scheduler.scheduled_count t.scheduler ≡ length t.scheduler.coroutine_queue)
    × (t.destroyed ≡ 5 ∷ [])
    × (count 6 w.scheduled
        ≡ count 6 t.scheduler.coroutine_queue + (count 6 t.destroyed + count 6 w.gone))
unfolding run start step turn_worker make Scheduler.schedule Scheduler.schedule_local
    Scheduler.coroutines_notify Scheduler.execution_loop Scheduler.suspension_loop Scheduler.run
    Scheduler.next_coroutine
thrown-conserved_example = thrown-conserved 6 5 0 executing_five refl

-- Coroutines that have not been scheduled, and a scheduler with this state.
abbrev unscheduled : State → Tasks ℕ
unscheduled state = record {
  scheduler = record make { state = state };
  frame = λ h. record { done = false; result = none; cleanup_list = [] };
  joiners = 5;
}

schedule-halted_example :
    let r = Tasks.schedule false false (some 9) (unscheduled halted) in
    NeverReturns false r.outcome
    × (r.next.scheduler ≡ record make { state = halted })
    × ((r.next.frame 9).done ≡ false)
    × ((r.next.frame 9).cleanup_list ≡ 5 ∷ [])
schedule-halted_example = schedule-halted false 9 (unscheduled halted) refl refl
