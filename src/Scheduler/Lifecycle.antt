-- ===== src/Scheduler/Lifecycle.antt =====
-- inc/scheduler.hpp: `scheduler::lifecycle::service`, which suspends and resumes every registered
-- scheduler.
use hermesconcurrencyengine.Common.{
  ◌≡◌, ◌⊎◌, inl, inr, refl, sym, subst, List, [], ◌∷◌, ◌++◌, All, arith,
}
use hermesconcurrencyengine.Scheduler
use hermesconcurrencyengine.Scheduler.{Scheduler, State, executing, suspended, halted}

pub record Service : Type 0 where
  pub state : State
  pub lifecycles : List Scheduler

abbrev pub suspend_all : List Scheduler → List Scheduler
suspend_all [] = []
suspend_all (s ∷ ss) = Scheduler.suspend s ∷ suspend_all ss

abbrev pub resume_all : List Scheduler → List Scheduler
resume_all [] = []
resume_all (s ∷ ss) = Scheduler.resume s ∷ resume_all ss

pub registration : Service → Scheduler → Service
registration v s = elim v.state [
  | executing ↦ record v { lifecycles = v.lifecycles ++ Scheduler.resume s ∷ [] }
  | suspended ↦ record v { lifecycles = v.lifecycles ++ Scheduler.suspend s ∷ [] }
  | halted ↦ record v { lifecycles = v.lifecycles ++ s ∷ [] }
]

pub suspend_service : Service → Service
suspend_service v = record { state = suspended; lifecycles = suspend_all v.lifecycles }

pub resume_service : Service → Service
resume_service v = elim v.state [
  | suspended ↦ record { state = executing; lifecycles = resume_all v.lifecycles }
  | executing ↦ v
  | halted ↦ v
]

pub data Call : Type 0 where
  registers : Scheduler → Call
  suspends resumes : Call

pub call : Service → Call → Service
call v (registers s) = registration v s
call v suspends = suspend_service v
call v resumes = resume_service v

abbrev pub calls : Service → List Call → Service
calls v [] = v
calls v (c ∷ cs) = calls (call v c) cs

-- A scheduler in the state of the service, unless it is halted.
abbrev pub Agrees : State → Scheduler → Type 0
Agrees g s = (s.state ≡ halted) ⊎ (s.state ≡ g)

resume-Agrees : (s : Scheduler) → Agrees executing (Scheduler.resume s)
unfolding Scheduler.resume Scheduler.resume_notify
resume-Agrees s = ground arith

suspend-Agrees : (s : Scheduler) → Agrees suspended (Scheduler.suspend s)
unfolding Scheduler.suspend Scheduler.coroutines_notify
suspend-Agrees s = ground arith

resume_all-Agrees : (ss : List Scheduler) → All (Agrees executing) (resume_all ss)
resume_all-Agrees [] = tt
resume_all-Agrees (s ∷ ss) = (resume-Agrees s, resume_all-Agrees ss)

suspend_all-Agrees : (ss : List Scheduler) → All (Agrees suspended) (suspend_all ss)
suspend_all-Agrees [] = tt
suspend_all-Agrees (s ∷ ss) = (suspend-Agrees s, suspend_all-Agrees ss)

All-snoc :
    (P : Scheduler → Type 0) (ss : List Scheduler) {s : Scheduler}
    → All P ss
    → P s
    → All P (ss ++ s ∷ [])
All-snoc P [] v p = (p, tt)
All-snoc P (t ∷ ss) v p = (v.0, All-snoc P ss v.1 p)

record InStep (v : Service) : Type 0 where
  running : (v.state ≡ executing) ⊎ (v.state ≡ suspended)
  agree : All (Agrees v.state) v.lifecycles

registration-InStep : (v : Service) (s : Scheduler) → InStep v → InStep (registration v s)
unfolding registration
registration-InStep v s i = elim i.running [
  | inl e ↦
      let went : registration v s
          ≡ record v { lifecycles = v.lifecycles ++ Scheduler.resume s ∷ [] } =
        ground (arith, e) in
      subst InStep (sym went) (record {
        running = i.running;
        agree =
            All-snoc (Agrees v.state) v.lifecycles i.agree
              (subst (λ g. Agrees g (Scheduler.resume s)) (sym e) (resume-Agrees s));
      })
  | inr e ↦
      let went : registration v s
          ≡ record v { lifecycles = v.lifecycles ++ Scheduler.suspend s ∷ [] } =
        ground (arith, e) in
      subst InStep (sym went) (record {
        running = i.running;
        agree =
            All-snoc (Agrees v.state) v.lifecycles i.agree
              (subst (λ g. Agrees g (Scheduler.suspend s)) (sym e) (suspend-Agrees s));
      })
]

resume_service-InStep : (v : Service) → InStep v → InStep (resume_service v)
unfolding resume_service
resume_service-InStep v i = elim i.running [
  | inl e ↦ let went : resume_service v ≡ v = ground (arith, e) in subst InStep (sym went) i
  | inr e ↦
      let went : resume_service v
          ≡ record { state = executing; lifecycles = resume_all v.lifecycles } =
        ground (arith, e) in
      subst InStep (sym went)
        (record { running = inl refl; agree = resume_all-Agrees v.lifecycles })
]

call-InStep : (v : Service) (c : Call) → InStep v → InStep (call v c)
unfolding call suspend_service
call-InStep v (registers s) i = registration-InStep v s i
call-InStep v suspends i = record { running = inr refl; agree = suspend_all-Agrees v.lifecycles }
call-InStep v resumes i = resume_service-InStep v i

calls-InStep : (cs : List Call) (v : Service) → InStep v → InStep (calls v cs)
calls-InStep [] v i = i
calls-InStep (c ∷ cs) v i = calls-InStep cs (call v c) (call-InStep v c i)

-- After any calls of `registration`, `suspend` and `resume` of a new service, whatever states the
-- schedulers were registered in, each of them is in the state of the service, or halted.
pub service-Agrees :
    (cs : List Call)
    → let v = calls (record { state = executing; lifecycles = [] }) cs in
      All (Agrees v.state) v.lifecycles
service-Agrees cs =
    (calls-InStep cs (record { state = executing; lifecycles = [] })
      (record { running = inl refl; agree = tt })).agree
