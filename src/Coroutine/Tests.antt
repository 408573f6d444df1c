-- ===== src/Coroutine/Tests.antt =====
-- The coroutine objects of inc/coroutine.hpp at concrete values.
use hermesconcurrencyengine.Common.{◌+◌, true, false, none, some, List, [], ◌∷◌, ◌≡◌, refl, count}
use hermesconcurrencyengine.Coroutine.{Objects, handle_at}
use hermesconcurrencyengine.Coroutine.Ownership.{
  Operation, constructs, moves, resets, releases, run, taken, places, owned_once,
}
use hermesconcurrencyengine.Coroutine.Resuming.{
  Thread, gives_up, throws, resumes, resume, execute, enter, leave, unhandled_exception, resume-tl,
}

-- An object with the handle 7 is moved from, the new one gives the handle up, and both are reset.
abbrev operations : List Operation
operations = constructs (some 7) ∷ moves 0 ∷ releases 1 ∷ resets 0 ∷ resets 1 ∷ []

abbrev nothing : Objects
nothing = record { coroutines = []; released = []; destroyed = [] }

owned_once_example :
    places 7 (run operations nothing) ≡ places 7 nothing + count 7 (taken operations nothing)
owned_once_example = owned_once 7 operations nothing

-- The object 0 has the handle 7 and the object 1 the handle 8; no coroutine runs.
abbrev thread : Thread
thread = record {
  tl_this_coroutine = none;
  coroutines = some 7 ∷ some 8 ∷ [];
  released = [];
  raised = [];
}

resume-tl_example :
    let o = resume 0 (resumes 1 gives_up gives_up) thread in
    (o.thrown ≡ false) × (o.next.tl_this_coroutine ≡ none)
resume-tl_example = resume-tl 0 (resumes 1 gives_up gives_up) thread (tt, tt) refl

rethrows : (resume 0 throws thread).thrown ≡ true
unfolding resume execute enter leave unhandled_exception handle_at
rethrows = refl
