-- ===== src/Channel/Run.antt =====
-- Sequences of operations on a channel of inc/channel.hpp, one after another as its lock orders them,
-- for every implementation that keeps the laws of `Fifo`.
use hermesconcurrencyengine.Common.{
  ◌≡◌, refl, sym, ap, ◌∙◌, Option, none, some, List, [], ◌∷◌, ◌++◌, append-nil, append_assoc, All,
}
use hermesconcurrencyengine.Channel.{Op, Effect}
use hermesconcurrencyengine.Channel.Log.{accepted, delivered}

pub record Trace (S A : Type 0) : Type 0 where
  pub final : S
  pub accepted : List A
  pub delivered : List A

-- What an implementation provides: its step (`none` is undefined behaviour), the values that it
-- stores, and the operations after which a good state is again good and first in, first out.
pub record Fifo (S A : Type 0) : Type 1 where
  pub step : S → Op A → Option (Effect S A)
  pub stored : S → List A
  pub IsGood : S → Type 0
  pub Safe : Op A → Type 0
  pub keeps :
      (s : S) (op : Op A)
      → IsGood s
      → Safe op
      → (e : Effect S A) × (step s op ≡ some e)
        × IsGood e.next
        × (stored s ++ accepted op e ≡ delivered e ++ stored e.next)

module _ {S A : Type 0} (step : S → Op A → Option (Effect S A)) where
  prepend : Op A → Effect S A → Option (Trace S A) → Option (Trace S A)
  prepend op e none = none
  prepend op e (some t) =
      some (record t {
        accepted = accepted op e ++ t.accepted;
        delivered = delivered e ++ t.delivered;
      })

  unfoldable pub run : S → List (Op A) → Option (Trace S A)
  unfolding prepend
  run s [] = some (record { final = s; accepted = []; delivered = [] })
  run s (op ∷ ops) = elim (step s op) [ none ↦ none | some e ↦ prepend op e (run e.next ops) ]

append_regroup :
    {A : Type 0} (s a d m b e f : List A)
    → s ++ a ≡ d ++ m
    → m ++ b ≡ e ++ f
    → s ++ (a ++ b) ≡ (d ++ e) ++ f
append_regroup s a d m b e f p q =
    sym (append_assoc s a b)
    ∙ ap (λ l. l ++ b) p
    ∙ append_assoc d m b
    ∙ ap (λ l. d ++ l) q
    ∙ sym (append_assoc d e f)

module _ {S A : Type 0} (L : Fifo S A) where
  open L use {IsGood, Safe, stored}

  -- The run is defined, and what was stored and what it lets in are, in order, what it hands out and
  -- what it leaves.
  pub run-Fifo :
      (ops : List (Op A)) (s : S)
      → IsGood s
      → All Safe ops
      → (t : Trace S A) × (run L.step s ops ≡ some t)
        × IsGood t.final
        × (stored s ++ t.accepted ≡ t.delivered ++ stored t.final)
  unfolding run
  run-Fifo [] s g safe =
      (record { final = s; accepted = []; delivered = [] }, refl, g, append-nil (stored s))
  run-Fifo (op ∷ ops) s g safe =
      let (e, stepped, g', moved) = L.keeps s op g safe.0 in
      let (t, ran, g'', rest) = run-Fifo ops e.next g' safe.1 in
      (
        record t { accepted = accepted op e ++ t.accepted; delivered = delivered e ++ t.delivered },
        rw (stepped, run, ran),
        g'',
        append_regroup (stored s) (accepted op e) (delivered e) (stored e.next) t.accepted
            t.delivered (stored t.final) moved rest,
      )

  -- The same from a state that stores nothing.
  pub run_new :
      (ops : List (Op A)) (s : S)
      → stored s ≡ []
      → IsGood s
      → All Safe ops
      → (t : Trace S A) × (run L.step s ops ≡ some t)
        × IsGood t.final
        × (t.accepted ≡ t.delivered ++ stored t.final)
  run_new ops s e g safe =
      let (t, ran, g', moved) = run-Fifo ops s g safe in
      (t, ran, g', ap (λ l. l ++ t.accepted) (sym e) ∙ moved)
