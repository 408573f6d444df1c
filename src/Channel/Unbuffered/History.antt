-- ===== src/Channel/Unbuffered/History.antt =====
-- What an unbuffered channel of inc/channel.hpp has taken and handed out over a run.
use hermesconcurrencyengine.Common.{
  ℕ, suc, ◌+◌, ◌≡◌, ◌⊎◌, refl, ap, true, false, Option, none, some, List, [], ◌∷◌, ◌++◌, map,
  length,
}
use hermesconcurrencyengine.Channel.{
  Sender, Op, send, recv, try_send, try_recv, close, Reply, ready, suspended, tried, success, Event,
  sender_resumed, receiver_resumed, Effect, fail_senders, fail_receivers,
}
use hermesconcurrencyengine.Channel.Log.{delivered}
use hermesconcurrencyengine.Channel.Unbuffered.{Unbuffered, make, step}
use hermesconcurrencyengine.Channel.Unbuffered.Laws.{IsValid}

module _ {A : Type 0} where
  -- The value that the channel takes from the caller: one that it hands on, or parks with the caller.
  abbrev pub taken_in : Op A → Reply → List A
  taken_in (send task a) (ready true) = a ∷ []
  taken_in (send task a) suspended = a ∷ []
  taken_in (send task a) _ = []
  taken_in (try_send a) (tried success) = a ∷ []
  taken_in (try_send a) _ = []
  taken_in (recv task) _ = []
  taken_in try_recv _ = []
  taken_in close _ = []

  -- The parked sends that were resumed with a null pointer, and so fail.
  abbrev pub failures : List (Event A) → ℕ
  failures [] = 0
  failures (sender_resumed task none ∷ es) = suc (failures es)
  failures (sender_resumed task (some a) ∷ es) = failures es
  failures (receiver_resumed task m ∷ es) = failures es

  abbrev pub sources : List (Sender A) → List A
  sources = map (λ w. w.source)

  abbrev pub NotTryRecv : Op A → Type 0
  NotTryRecv try_recv = ⊥
  NotTryRecv (send task a) = Unit {0}
  NotTryRecv (recv task) = Unit {0}
  NotTryRecv (try_send a) = Unit {0}
  NotTryRecv close = Unit {0}

failures-fail_receivers : (A : Type 0) (rs : List ℕ) → failures {A = A} (fail_receivers rs) ≡ 0
unfolding fail_receivers
failures-fail_receivers A [] = refl
failures-fail_receivers A (r ∷ rs) = failures-fail_receivers A rs

-- A channel, the values that it took so far, those that it handed out, and how many sends failed.
pub record History (A : Type 0) : Type 0 where
  pub channel : Unbuffered A
  pub taken : List A
  pub handed_out : List A
  pub failed : ℕ

module _ {A : Type 0} where
  abbrev pub extend : History A → Op A → Effect (Unbuffered A) A → History A
  extend h op e = record {
    channel = e.next;
    taken = h.taken ++ taken_in op e.reply;
    handed_out = h.handed_out ++ delivered e;
    failed = h.failed + failures e.resumed;
  }

  unfoldable pub run : History A → List (Op A) → Option (History A)
  run h [] = some h
  run h (op ∷ ops) = elim (step h.channel op) [ none ↦ none | some e ↦ run (extend h op e) ops ]

  unfoldable pub new_history : History A
  new_history = record { channel = make; taken = []; handed_out = []; failed = 0 }

  -- At an open channel the values taken are those handed out and then those of the parked sends, and
  -- no send failed. At a closed one they are those handed out and then one for each send that failed.
  abbrev pub Accounted : History A → Type 0
  Accounted h =
      ((h.channel.closed_flag ≡ false)
        × (h.failed ≡ 0)
        × (h.taken ≡ h.handed_out ++ sources h.channel.parked_send))
      ⊎ ((h.channel.closed_flag ≡ true)
          × (rest : List A) × (length rest ≡ h.failed)
          × (h.taken ≡ h.handed_out ++ rest))

  pub record IsKept (h : History A) : Type 0 where
    pub valid : IsValid h.channel
    pub unused : h.channel.front_resumed ≡ false
    pub accounted : Accounted h

  pub failures-fail :
      (ws : List (Sender A)) (rs : List ℕ)
      → failures (fail_senders ws ++ fail_receivers rs) ≡ length ws
  unfolding fail_senders
  failures-fail [] rs = failures-fail_receivers A rs
  failures-fail (w ∷ ws) rs = ap suc (failures-fail ws rs)

  pub sources-snoc :
      (ws : List (Sender A)) (w : Sender A) → sources (ws ++ w ∷ []) ≡ sources ws ++ w.source ∷ []
  sources-snoc [] w = refl
  sources-snoc (v ∷ ws) w = ap (λ l. v.source ∷ l) (sources-snoc ws w)

  pub length-sources : (ws : List (Sender A)) → length (sources ws) ≡ length ws
  length-sources [] = refl
  length-sources (w ∷ ws) = ap suc (length-sources ws)
