-- ===== src/Programs/Background.antt =====
-- src/background/BackgroundRunner.h and BackgroundServer.h: the thread that calls `startServer` and
-- later `stop`, and the thread that it starts, which makes the server and runs it. Their steps
-- interleave.
use tcp_udp.Base.{◌≡◌, Bool, true, false}

-- Where the caller is: before the thread is made, at `future.get()`, behind the return of
-- `startServer`, at `thread_.join()`, and behind it. An exception that leaves the thread's function
-- ends the program: `aborted`.
pub data Caller : Type 0 where
  starting waiting returned joining joined aborted : Caller

-- Where the thread is: not made, at the factory, at `set_value`, at `runner` before the server has
-- what its `stop` acts on, behind that, in the server's loop, and at its end.
pub data Worker : Type 0 where
  absent creating setting calling serving over : Worker

-- `promised` says whether the promise has a value, `told` whether a stop that counts was made, and
-- `dangling` whether `runner`, which the thread holds by reference, was called after `startServer`
-- returned, which destroys it.
pub record Runner : Type 0 where
  pub caller : Caller
  pub worker : Worker
  pub promised : Bool
  pub told : Bool
  pub dangling : Bool

abbrev pub begin : Runner
begin = record {
  caller = starting;
  worker = absent;
  promised = false;
  told = false;
  dangling = false;
}

-- Whether `startServer` has returned.
abbrev pub is_back : Caller → Bool
is_back starting = false
is_back waiting = false
is_back _ = true

-- What the thread calls that may throw: the factory and the runner.
pub data Throws : Worker → Type 0 where
  in_factory : Throws creating
  in_runner : Throws calling
  in_loop : Throws serving

-- Whether a stop counts. With `keeps` it does at any time: the server's stop ends the event loop of
-- its reactor, and a reactor whose loop was ended does not start it. Without, it does only where the
-- server has what its stop acts on: `TcpServerProxy::stop` does nothing before `start` has made
-- `tcp_server_`.
abbrev pub counts : Bool → Worker → Bool
counts keeps serving = true
counts keeps over = true
counts keeps _ = keeps

-- What may happen besides: a call of the thread throws, or the server's loop ends without being told,
-- as it does on an interrupt.
pub data Event : Runner → Runner → Type 0 where
  throws : (s : Runner) → Throws s.worker → Event s (record s { caller = aborted; worker = over })
  leaves : (s : Runner) → s.worker ≡ serving → Event s (record s { worker = over })

-- What the two threads do.
module _ (keeps : Bool) where
  pub data Step : Runner → Runner → Type 0 where
    spawns :
        (s : Runner)
        → s.caller ≡ starting
        → Step s (record s { caller = waiting; worker = creating })
    creates : (s : Runner) → s.worker ≡ creating → Step s (record s { worker = setting })
    sets :
        (s : Runner) → s.worker ≡ setting → Step s (record s { worker = calling; promised = true })
    wakes :
        (s : Runner)
        → s.caller ≡ waiting
        → s.promised ≡ true
        → Step s (record s { caller = returned })
    calls :
        (s : Runner)
        → s.worker ≡ calling
        → Step s (record s { worker = serving; dangling = is_back s.caller })
    stops :
        (s : Runner)
        → s.caller ≡ returned
        → Step s (record s { caller = joining; told = counts keeps s.worker })
    ends : (s : Runner) → s.worker ≡ serving → s.told ≡ true → Step s (record s { worker = over })
    joins :
        (s : Runner) → s.caller ≡ joining → s.worker ≡ over → Step s (record s { caller = joined })

  -- What may follow a state while the server's loop goes on until it is told to end.
  pub data Steps (s : Runner) : Runner → Type 0 where
    here : Steps s s
    next : {t u : Runner} → Steps s t → Step t u → Steps s u

  pub data Reach : Runner → Type 0 where
    at_begin : Reach begin
    by_step : {s t : Runner} → Reach s → Step s t → Reach t
    by_event : {s t : Runner} → Reach s → Event s t → Reach t
