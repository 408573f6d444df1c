-- ===== src/Awaitable/Protocol/Rounds.antt =====
-- How many actions there can be before the awaiter and the resumer of Protocol.antt have both finished.
use hermesconcurrencyengine.Common.{
  ℕ, suc, ◌+◌, ◌*◌, ◌≤◌, ◌<◌, Option, none, some, List, [], ◌∷◌, WhenSome, ◌≡◌, sym, ap, ◌∙◌, arith,
  length,
}
use hermesconcurrencyengine.Awaitable.{Implementation, Lawful, make}
use hermesconcurrencyengine.Awaitable.Protocol.{
  World, Action, awaits, suspends, spurious, relocks, continues, resumes, completes, start, step,
}
use hermesconcurrencyengine.Awaitable.Protocol.Shapes.{
  Shape, Fits, ConsistentBelow, world_of, rank, at_start,
}
use hermesconcurrencyengine.Awaitable.Protocol.Invariant.{cost, step-Consistent}

module _ {S M : Type 0} (I : Implementation S M) (m : M) where
  -- The actions, if every one of them can be taken.
  unfoldable pub run : World S → List Action → Option (World S)
  run w [] = some w
  run w (a ∷ rest) = elim (step I m w a) [ none ↦ none | some next ↦ run next rest ]

abbrev pub spurious_wakeups : List Action → ℕ
spurious_wakeups [] = 0
spurious_wakeups (spurious ∷ rest) = suc (spurious_wakeups rest)
spurious_wakeups (awaits ∷ rest) = spurious_wakeups rest
spurious_wakeups (suspends ∷ rest) = spurious_wakeups rest
spurious_wakeups (relocks ∷ rest) = spurious_wakeups rest
spurious_wakeups (continues ∷ rest) = spurious_wakeups rest
spurious_wakeups (resumes ∷ rest) = spurious_wakeups rest
spurious_wakeups (completes ∷ rest) = spurious_wakeups rest

spurious_wakeups-cons :
    (a : Action) (rest : List Action)
    → 2 * spurious_wakeups (a ∷ rest) ≡ cost a + 2 * spurious_wakeups rest
spurious_wakeups-cons awaits rest = omega arith
spurious_wakeups-cons suspends rest = omega arith
spurious_wakeups-cons spurious rest = omega arith
spurious_wakeups-cons relocks rest = omega arith
spurious_wakeups-cons continues rest = omega arith
spurious_wakeups-cons resumes rest = omega arith
spurious_wakeups-cons completes rest = omega arith

module _ {S M : Type 0} (I : Implementation S M) (Fresh : S → Type 0) (m : M)
    (law : Lawful I Fresh) where
  length-run_after :
      (o : Option (World S)) (n : ℕ) (rest : List Action) {end : World S}
      → WhenSome (ConsistentBelow I Fresh m n) o
      → ((p : Shape S)
          → Fits I Fresh m p
          → run I m (world_of p) rest ≡ some end
          → length rest ≤ rank p + 2 * spurious_wakeups rest)
      → (elim o [ none ↦ none | some next ↦ run I m next rest ]) ≡ some end
      → length rest < n + 2 * spurious_wakeups rest
  length-run_after none n rest c again e = absurd (ground arith)
  length-run_after (some w) n rest (p, same, fits, low) again e =
      omega (arith, low, again p fits (ap (λ v. run I m v rest) (sym same) ∙ e))

  length-run :
      (acts : List Action) (p : Shape S) {end : World S}
      → Fits I Fresh m p
      → run I m (world_of p) acts ≡ some end
      → length acts ≤ rank p + 2 * spurious_wakeups acts
  unfolding run
  length-run [] p fits e = omega arith
  length-run (a ∷ rest) p fits e = omega (
    arith,
    spurious_wakeups-cons a rest,
    length-run_after (step I m (world_of p) a) (rank p + cost a) rest
        (step-Consistent I Fresh m law a p fits) (λ q. length-run rest q) e,
  )

  -- For a fresh operation and a lawful implementation, a run of an await and its `resume` has at
  -- most six actions, and two more for each spurious wakeup.
  pub actions_bounded :
      (caller : Option ℕ) (s : S) (acts : List Action) {end : World S}
      → Fresh s
      → run I m (start I m caller s) acts ≡ some end
      → length acts ≤ 6 + 2 * spurious_wakeups acts
  unfolding start make
  actions_bounded caller s acts h e = length-run acts (at_start caller s) h e
