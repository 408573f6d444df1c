-- ===== src/Spinlock/Exclusion.antt =====
-- The spinlock of inc/atomic.hpp keeps all threads but one out.
use hermesconcurrencyengine.Common.{
  ℕ, true, false, List, [], ◌∷◌, ◌≡◌, ◌≢◌, refl, ◌⊎◌, inl, inr, not, arith, if◌then◌else◌,
}
use hermesconcurrencyengine.Spinlock.{
  Position, outside, spins, inside, Spinlock, make, Call, lock, lock_round, tries, unlock, step,
  run, update,
}

-- The lock is free; or this thread holds it, and no other does.
abbrev pub IsFree : Spinlock → Type 0
IsFree s = (s.flag ≡ false) × ((i : ℕ) → s.position i ≢ inside)

abbrev pub HeldBy : ℕ → Spinlock → Type 0
HeldBy k s = (s.flag ≡ true) × (s.position k ≡ inside) × ((i : ℕ) → s.position i ≡ inside → i ≡ k)

abbrev pub IsExclusive : Spinlock → Type 0
IsExclusive s = IsFree s ⊎ ((k : ℕ) × HeldBy k s)

-- A thread that is outside or spins, and stays so.
stays_out :
    (s : Spinlock) (j : ℕ) (p : Position)
    → s.position j ≢ inside
    → p ≢ inside
    → IsExclusive s
    → IsExclusive (record s { position = update s.position j p })
stays_out s j p out np (inl (f, h)) = inl (f, λ i e. ground (arith, h i))
stays_out s j p out np (inr (k, (f, e, u))) =
    inr (k, (f, ground (arith, e), λ i q. ground (arith, u i)))

enters :
    (s : Spinlock) (j : ℕ)
    → IsFree s
    → HeldBy j (record { flag = true; position = update s.position j inside })
enters s j (f, h) = (refl, ground arith, λ i q. ground (arith, h i))

leaves :
    (s : Spinlock) (j : ℕ)
    → s.position j ≡ inside
    → IsExclusive s
    → IsFree (record { flag = false; position = update s.position j outside })
leaves s j e (inl (f, h)) = absurd (h j e)
leaves s j e (inr (k, (f, held, u))) = (refl, λ i q. ground (arith, u i, u j))

-- A `test_and_set`, of which the thread enters or stays where it is.
abbrev tested : Spinlock → ℕ → Spinlock
tested s j = record {
  flag = true;
  position = if not s.flag then update s.position j inside else s.position;
}

tested-IsExclusive : (s : Spinlock) (j : ℕ) → IsExclusive s → IsExclusive (tested s j)
tested-IsExclusive s j (inl (f, h)) = rw f (inr (j, enters s j (f, h)))
tested-IsExclusive s j (inr (k, (f, e, u))) = rw f (inr (k, (refl, e, u)))

lock-IsExclusive :
    (s : Spinlock) (j : ℕ) (p : Position)
    → s.position j ≡ p
    → IsExclusive s
    → IsExclusive (step s (lock j))
unfolding step
lock-IsExclusive s j outside e x = rw (e, step) (stays_out s j spins (cc) (cc) x)
lock-IsExclusive s j spins e x = rw (e, step) x
lock-IsExclusive s j inside e x = rw (e, step) x

round-IsExclusive :
    (s : Spinlock) (j : ℕ) (p : Position)
    → s.position j ≡ p
    → IsExclusive s
    → IsExclusive (step s (lock_round j))
unfolding step
round-IsExclusive s j outside e x = rw (e, step) x
round-IsExclusive s j spins e x = rw (e, step) (tested-IsExclusive s j x)
round-IsExclusive s j inside e x = rw (e, step) x

tries-IsExclusive :
    (s : Spinlock) (j : ℕ) (p : Position)
    → s.position j ≡ p
    → IsExclusive s
    → IsExclusive (step s (tries j))
unfolding step
tries-IsExclusive s j outside e x = rw (e, step) (tested-IsExclusive s j x)
tries-IsExclusive s j spins e x = rw (e, step) x
tries-IsExclusive s j inside e x = rw (e, step) x

unlock-IsExclusive :
    (s : Spinlock) (j : ℕ) (p : Position)
    → s.position j ≡ p
    → IsExclusive s
    → IsExclusive (step s (unlock j))
unfolding step
unlock-IsExclusive s j outside e x = rw (e, step) x
unlock-IsExclusive s j spins e x = rw (e, step) x
unlock-IsExclusive s j inside e x = rw (e, step) (inl (leaves s j e x))

step-IsExclusive : (s : Spinlock) (c : Call) → IsExclusive s → IsExclusive (step s c)
step-IsExclusive s (lock j) x = lock-IsExclusive s j (s.position j) refl x
step-IsExclusive s (lock_round j) x = round-IsExclusive s j (s.position j) refl x
step-IsExclusive s (tries j) x = tries-IsExclusive s j (s.position j) refl x
step-IsExclusive s (unlock j) x = unlock-IsExclusive s j (s.position j) refl x

run-IsExclusive : (s : Spinlock) (cs : List Call) → IsExclusive s → IsExclusive (run s cs)
unfolding run
run-IsExclusive s [] x = x
run-IsExclusive s (c ∷ rest) x = run-IsExclusive (step s c) rest (step-IsExclusive s c x)

-- After any calls of any threads on a new lock, either its flag is clear and no thread holds it, or
-- its flag is set and exactly one thread holds it.
pub mutual_exclusion : (cs : List Call) → IsExclusive (run make cs)
unfolding make
mutual_exclusion cs = run-IsExclusive make cs (inl (refl, λ i e. cc))

held_flag : (s : Spinlock) (i : ℕ) → s.position i ≡ inside → IsExclusive s → s.flag ≡ true
held_flag s i e (inl (f, h)) = absurd (h i e)
held_flag s i e (inr (k, (f, held, u))) = f

round-free :
    (s : Spinlock) (j : ℕ) → s.position j ≡ spins → IsFree s → HeldBy j (step s (lock_round j))
unfolding step
round-free s j e free = rw (e, step) (rw free.0 (enters s j free))

round-unlock :
    (s : Spinlock) (i j : ℕ)
    → s.position i ≡ inside
    → s.position j ≡ spins
    → IsFree (record { flag = false; position = update s.position i outside })
    → HeldBy j (step (step s (unlock i)) (lock_round j))
unfolding step
round-unlock s i j ei ej free =
    rw (ei, step)
      (round-free (record { flag = false; position = update s.position i outside }) j
        (ground (arith, ei, ej)) free)

handed :
    (s : Spinlock) (i j k : ℕ)
    → s.position i ≡ inside
    → s.position j ≡ spins
    → s.position k ≡ outside
    → IsExclusive s
    → (step s (lock_round j) ≡ s)
      × (step s (tries k) ≡ s)
      × HeldBy j (step (step s (unlock i)) (lock_round j))
unfolding step
handed s i j k ei ej ek x =
    let f = held_flag s i ei x in
    let free = leaves s i ei x in
    (
      rw (ej, step) (ground (arith, f)),
      rw (ek, step) (ground (arith, f)),
      round-unlock s i j ei ej free,
    )

-- After any calls on a new lock, while one thread holds it, the rounds of another that spins and a
-- `try_lock` of a third, which is outside, change nothing; and once the first has unlocked, the next
-- round of the one that spins ends its `lock`, and it alone holds the lock.
pub unlock-lets_in :
    (cs : List Call) (i j k : ℕ)
    → (run make cs).position i ≡ inside
    → (run make cs).position j ≡ spins
    → (run make cs).position k ≡ outside
    → let s = run make cs in
      (step s (lock_round j) ≡ s)
      × (step s (tries k) ≡ s)
      × HeldBy j (step (step s (unlock i)) (lock_round j))
unlock-lets_in cs i j k ei ej ek = handed (run make cs) i j k ei ej ek (mutual_exclusion cs)
