-- ===== src/Tcp/Departure.antt =====
-- The end of a client's task of NotificationHandler.cpp: `remove_session`.
use tcp_udp.Base.{
  ℕ, suc, ◌+◌, ◌≤◌, ◌≡◌, refl, sym, ap, ◌∙◌, inl, inr, true, false, List, [], ◌∷◌, arith,
  Bool-cases,
}
use tcp_udp.Sys.Exec.{ok, continue}
use tcp_udp.Sys.Loop.{finished, while_not_cancelled, while_not_cancelled-finished}
use tcp_udp.Sys.World.{Os, IsPosix, log}
use tcp_udp.Sys.Trace.{writes_out, chunks}
use tcp_udp.Tcp.Notifying.{
  Client, Handler, Task, round, run_task, remove_session, holds, erase_first,
}
use tcp_udp.Tcp.Notifications.{answers, Answered, round_returns, round_takes_time, loop-Answered}

erase_first_absent :
    (pointer : ℕ) (sessions : List Client)
    → holds pointer sessions ≡ false
    → erase_first pointer sessions ≡ sessions
unfolding holds erase_first
erase_first_absent pointer [] e = refl
erase_first_absent pointer (c ∷ rest) e = ground (arith, erase_first_absent pointer rest)

module _ (os : Os) (c : Client) where
  loop-finished :
      (rounds stop : ℕ) (t : Task)
      → ((n : ℕ) → stop ≤ n → os.cancelled n ≡ true)
      → stop ≤ t.handler.world.time + rounds
      → (while_not_cancelled (λ u. os.cancelled u.handler.world.time) (round os c) (suc rounds) t).0
        ≡ ok finished
  loop-finished rounds stop t set enough =
      while_not_cancelled-finished (λ u. os.cancelled u.handler.world.time) (round os c)
        (round_returns os c) (λ u. u.handler.world.time) (round_takes_time os c) rounds stop t
        (λ u late. set u.handler.world.time late) enough

  remove_session-sessions :
      (h : Handler)
      → ((remove_session c h).1.active_sessions ≡ erase_first c.pointer h.active_sessions)
        × ((remove_session c h).1.world.calls ≡ h.world.calls)
        × ((remove_session c h).0 ≡ ok tt)
  unfolding remove_session log
  remove_session-sessions h = elim (Bool-cases (holds c.pointer h.active_sessions)) [
    | inl e ↦ rw e (refl, refl, refl)
    | inr e ↦ rw e (sym (erase_first_absent c.pointer h.active_sessions e), refl, refl)
  ]

  abbrev looped : ℕ → Task → Task
  looped rounds t =
      (while_not_cancelled (λ u. os.cancelled u.handler.world.time) (round os c) (suc rounds) t).1

  -- A task that is started with the handler of its client and is cancelled, with no other thread in
  -- between, ends with its client's session off the list, once, and the others on it in their order;
  -- by then each message that it read was answered as `answers` says. One round more than the calls up
  -- to the one from which the flag is set is enough.
  pub run_task_lem :
      (rounds stop : ℕ) (t : Task)
      → IsPosix os
      → ((n : ℕ) → stop ≤ n → os.cancelled n ≡ true)
      → stop ≤ t.handler.world.time + rounds
      → Answered c t.handler.active_sessions t
      → let ended = run_task os (suc rounds) c t in
        (ended.0 ≡ ok finished)
        × (ended.1.handler.active_sessions ≡ erase_first c.pointer t.handler.active_sessions)
        × (writes_out ended.1.handler.world.calls
            ≡ answers c t.handler.active_sessions (chunks ended.1.handler.world.calls))
  unfolding run_task
  run_task_lem rounds stop t posix set enough h =
      let ends = loop-finished rounds stop t set enough in
      let (answered, kept) = loop-Answered os c t.handler.active_sessions (suc rounds) t posix h in
      let (left, same, done) = remove_session-sessions (looped rounds t).handler in
      rw (ends, continue)
        (rw (done, continue) (refl, left ∙ ap (erase_first c.pointer) kept, rw same answered))
