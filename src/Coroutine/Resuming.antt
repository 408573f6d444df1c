-- ===== src/Coroutine/Resuming.antt =====
-- inc/coroutine.hpp: `coroutine::resume`, `coroutine::in` and `coroutine::local`, with the thread-local
-- pointer to the running coroutine, and `unhandled_exception`.
use hermesconcurrencyengine.Common.{
  ℕ, Bool, true, false, Option, none, some, List, [], ◌∷◌, ◌++◌, set, option_to_list, if◌then◌else◌,
  ◌==◌, ◌||◌, ◌≡◌, refl, ap, ◌∙◌, arith, Bool-cases, inl, inr,
}
use hermesconcurrencyengine.Coroutine.{handle_at}

-- What the body of a coroutine does until it is resumed again: it returns or suspends with its handle in
-- place; it suspends in an awaitable, which takes the handle of `local()`; it throws; or it resumes the
-- coroutine at this address, whose body does what comes first, and then goes on.
pub data Body : Type 0 where
  stops : Body
  gives_up : Body
  throws : Body
  resumes : ℕ → Body → Body → Body

-- `raised` are the handles whose promise has its `eptr` set.
pub record Thread : Type 0 where
  pub tl_this_coroutine : Option ℕ
  pub coroutines : List (Option ℕ)
  pub released : List ℕ
  pub raised : List ℕ

-- The thread after `resume`, and whether it rethrew an exception.
pub record Outcome : Type 0 where
  pub next : Thread
  pub thrown : Bool

abbrev is_set : Option ℕ → Bool
is_set none = false
is_set (some a) = true

-- `coroutine::in()`
unfoldable pub is_in : Thread → Bool
is_in t = is_set t.tl_this_coroutine

abbrev release_at : Option ℕ → Thread → Thread
release_at none t = t
release_at (some a) t = record t {
  coroutines = set t.coroutines a none;
  released = option_to_list (handle_at t.coroutines a) ++ t.released;
}

-- `coroutine::local().release()`
unfoldable pub release_local : Thread → Thread
release_local t = release_at t.tl_this_coroutine t

-- `unhandled_exception` of the promise of this handle.
unfoldable pub unhandled_exception : Option ℕ → Thread → Thread
unhandled_exception h t = record t { raised = option_to_list h ++ t.raised }

abbrev pub is_member : ℕ → List ℕ → Bool
is_member h [] = false
is_member h (g ∷ gs) = h == g || is_member h gs

abbrev pub has_exception : Option ℕ → List ℕ → Bool
has_exception none raised = false
has_exception (some h) raised = is_member h raised

unfoldable pub enter : ℕ → Thread → Thread
enter a t = record t { tl_this_coroutine = some a }

-- `resume` after `handle_.resume()`.
unfoldable pub leave : Option ℕ → ℕ → Thread → Outcome
leave parent a t =
    if has_exception (handle_at t.coroutines a) t.raised
    then record { next = t; thrown = true }
    else record { next = record t { tl_this_coroutine = parent }; thrown = false }

-- The body of the coroutine with this handle.
unfoldable pub execute : Body → Option ℕ → Thread → Thread
unfolding release_local unhandled_exception enter leave
execute stops h t = t
execute gives_up h t = release_local t
execute throws h t = unhandled_exception h t
execute (resumes a inner rest) h t =
    let o = leave t.tl_this_coroutine a (execute inner (handle_at t.coroutines a) (enter a t)) in
    let went_on = execute rest h o.next in
    if o.thrown then unhandled_exception h o.next else went_on

unfoldable pub resume : ℕ → Body → Thread → Outcome
resume a body t = leave t.tl_this_coroutine a (execute body (handle_at t.coroutines a) (enter a t))

abbrev pub Quiet : Body → Type 0
Quiet stops = Unit {0}
Quiet gives_up = Unit {0}
Quiet throws = ⊥
Quiet (resumes a inner rest) = Quiet inner × Quiet rest

release_at-keeps :
    (c : Option ℕ) (t : Thread)
    → ((release_at c t).tl_this_coroutine ≡ t.tl_this_coroutine)
      × ((release_at c t).raised ≡ t.raised)
release_at-keeps none t = (refl, refl)
release_at-keeps (some a) t = (refl, refl)

has_exception-nil : (h : Option ℕ) (raised : List ℕ) → raised ≡ [] → has_exception h raised ≡ false
has_exception-nil none raised e = refl
has_exception-nil (some h) raised e = rw e refl

leave-quiet :
    (parent : Option ℕ) (a : ℕ) (t : Thread)
    → t.raised ≡ []
    → leave parent a t ≡ record { next = record t { tl_this_coroutine = parent }; thrown = false }
unfolding leave
leave-quiet parent a t e = rw (has_exception-nil (handle_at t.coroutines a) t.raised e) refl

execute-Quiet :
    (body : Body) (h : Option ℕ) (t : Thread)
    → Quiet body
    → t.raised ≡ []
    → ((execute body h t).tl_this_coroutine ≡ t.tl_this_coroutine)
      × ((execute body h t).raised ≡ [])
unfolding execute enter release_local
execute-Quiet stops h t q e = (refl, e)
execute-Quiet gives_up h t q e =
    let (same, none_raised) = release_at-keeps t.tl_this_coroutine t in (same, none_raised ∙ e)
execute-Quiet throws h t q e = absurd q
execute-Quiet (resumes a inner rest) h t (q, q2) e =
    let t2 = execute inner (handle_at t.coroutines a) (enter a t) in
    let (same, none_raised) = execute-Quiet inner (handle_at t.coroutines a) (enter a t) q e in
    rw (leave-quiet t.tl_this_coroutine a t2 none_raised)
      (execute-Quiet rest h (record t2 { tl_this_coroutine = t.tl_this_coroutine }) q2 none_raised)

-- If no body throws, and no promise holds an exception, then `resume` throws nothing, however the
-- bodies resume other coroutines, and leaves the thread-local pointer to the running coroutine as
-- it was.
pub resume-tl :
    (a : ℕ) (body : Body) (t : Thread)
    → Quiet body
    → t.raised ≡ []
    → ((resume a body t).thrown ≡ false)
      × ((resume a body t).next.tl_this_coroutine ≡ t.tl_this_coroutine)
unfolding resume enter
resume-tl a body t q e =
    let t2 = execute body (handle_at t.coroutines a) (enter a t) in
    let (same, none_raised) = execute-Quiet body (handle_at t.coroutines a) (enter a t) q e in
    rw (leave-quiet t.tl_this_coroutine a t2 none_raised) (refl, refl)

module _ (parent : Option ℕ) (a : ℕ) (t : Thread) where
  leave-in : is_set parent ≡ true → is_in t ≡ true → is_in (leave parent a t).next ≡ true
  unfolding leave is_in
  leave-in p r = elim (Bool-cases (has_exception (handle_at t.coroutines a) t.raised)) [
    | inl e ↦ rw e r
    | inr e ↦ rw e p
  ]

  leave-thrown : (leave parent a t).thrown ≡ true → (leave parent a t).next ≡ t
  unfolding leave
  leave-thrown h = elim (Bool-cases (has_exception (handle_at t.coroutines a) t.raised)) [
    | inl e ↦ rw e refl
    | inr e ↦ absurd (ground (arith, h, e))
  ]

entered : (a : ℕ) (t : Thread) → is_in (enter a t) ≡ true
unfolding is_in enter
entered a t = refl

execute-in :
    (body : Body) (h : Option ℕ) (t : Thread) → is_in t ≡ true → is_in (execute body h t) ≡ true
unfolding execute is_in release_local unhandled_exception enter
execute-in stops h t r = r
execute-in gives_up h t r =
    let (same, raised) = release_at-keeps t.tl_this_coroutine t in ap is_set same ∙ r
execute-in throws h t r = r
execute-in (resumes a inner rest) h t r =
    let t2 = execute inner (handle_at t.coroutines a) (enter a t) in
    let o = leave t.tl_this_coroutine a t2 in
    let left =
      leave-in t.tl_this_coroutine a t2 r
        (execute-in inner (handle_at t.coroutines a) (enter a t) refl) in
    let went_on = execute-in rest h o.next left in
    elim (Bool-cases o.thrown) [ inl e ↦ rw e left | inr e ↦ rw e went_on ]

-- If `resume` rethrows an exception, then `in()` is true after it, also where no coroutine ran
-- before.
pub resume-thrown :
    (a : ℕ) (body : Body) (t : Thread)
    → (resume a body t).thrown ≡ true
    → is_in (resume a body t).next ≡ true
unfolding resume enter
resume-thrown a body t e =
    let t2 = execute body (handle_at t.coroutines a) (enter a t) in
    ap is_in (leave-thrown t.tl_this_coroutine a t2 e)
    ∙ execute-in body (handle_at t.coroutines a) (enter a t) (entered a t)
