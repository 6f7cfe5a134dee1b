-- ===== src/Sys/Loop.antt =====
-- `while (!cancelled) { ... }`, which the tasks of the servers run.
use tcp_udp.Base.{
  ℕ, zero, suc, ◌+◌, ◌≤◌, ◌<◌, ◌≡◌, refl, ◌⊎◌, inl, inr, Bool, true, false, arith, if◌then◌else◌,
  Bool-cases,
}
use tcp_udp.Sys.Exec.{Exec, ok, pure, ◌>>=◌, continue}

-- How a loop ended; `running` is one whose rounds are used up.
pub data Loop : Type 0 where
  finished running : Loop

module _ {S : Type 0} (cancelled : S → Bool) (body : Exec S Bool) where
  -- At most `rounds` rounds; the body tells whether the loop goes on.
  unfoldable pub while_not_cancelled : ℕ → Exec S Loop
  while_not_cancelled zero s = pure running s
  while_not_cancelled (suc rounds) s =
      let rest =
        body >>= λ more. elim more [ true ↦ while_not_cancelled rounds | false ↦ pure finished ] in
      if cancelled s then pure finished s else rest s

  -- The ways that a step of the loop goes.
  loop_cancelled :
      (rounds : ℕ) (s : S)
      → cancelled s ≡ true
      → while_not_cancelled (suc rounds) s ≡ (ok finished, s)
  unfolding while_not_cancelled
  loop_cancelled rounds s stop = rw stop refl

  loop_next :
      (rounds : ℕ) (s : S)
      → cancelled s ≡ false
      → (body s).0 ≡ ok true
      → while_not_cancelled (suc rounds) s ≡ while_not_cancelled rounds (body s).1
  unfolding while_not_cancelled
  loop_next rounds s go more = rw go (rw (more, continue) refl)

  loop_last :
      (rounds : ℕ) (s : S)
      → cancelled s ≡ false
      → (body s).0 ≡ ok false
      → while_not_cancelled (suc rounds) s ≡ (ok finished, (body s).1)
  unfolding while_not_cancelled
  loop_last rounds s go last = rw go (rw (last, continue) refl)

  module _ (returns : (s : S) → ((body s).0 ≡ ok true) ⊎ ((body s).0 ≡ ok false)) where
    -- A property of the state that each round keeps is kept by the loop.
    pub while_not_cancelled_inv {ℓ} :
        (P : S → Type ℓ)
        → ((s : S) → P s → P (body s).1)
        → (rounds : ℕ) (s : S) → P s
        → P (while_not_cancelled rounds s).1
    while_not_cancelled_inv P keep zero s h = unfold while_not_cancelled in h
    while_not_cancelled_inv P keep (suc rounds) s h = elim (Bool-cases (cancelled s)) [
      | inl stop ↦ rw (loop_cancelled rounds s stop) h
      | inr go ↦ elim (returns s) [
        | inl more ↦
            rw (loop_next rounds s go more)
              (while_not_cancelled_inv P keep rounds (body s).1 (keep s h))
        | inr last ↦ rw (loop_last rounds s go last) (keep s h)
      ]
    ]

    -- The flag ends the loop: where it is set for good from the time `stop` on and each round takes
    -- time, one round more than the time up to there is enough.
    pub while_not_cancelled-finished :
        (clock : S → ℕ)
        → ((s : S) → clock s < clock (body s).1)
        → (rounds stop : ℕ) (s : S) → ((s : S) → stop ≤ clock s → cancelled s ≡ true)
        → stop ≤ clock s + rounds
        → (while_not_cancelled (suc rounds) s).0 ≡ ok finished
    while_not_cancelled-finished clock later zero stop s set enough =
        rw (loop_cancelled zero s (set s (omega arith))) refl
    while_not_cancelled-finished clock later (suc rounds) stop s set enough =
        elim (Bool-cases (cancelled s)) [
          | inl done ↦ rw (loop_cancelled (suc rounds) s done) refl
          | inr go ↦ elim (returns s) [
            | inl more ↦ rw (loop_next (suc rounds) s go more) (
                while_not_cancelled-finished clock later rounds stop (body s).1 set
                  (omega (arith, later s)))
            | inr last ↦ rw (loop_last (suc rounds) s go last) refl
          ]
        ]
