-- ===== src/Programs/Joining.antt =====
-- What holds of a server in the background, and whether stopping it ends.
use tcp_udp.Base.{
  ℕ, zero, suc, ◌+◌, ◌<◌, ◌≡◌, refl, ap, ◌⊎◌, inl, inr, Bool, true, false, not, arith,
}
use tcp_udp.Programs.Background.{
  Caller, starting, waiting, returned, joining, joined, aborted, Worker, absent, creating, setting,
  calling, serving, over, Runner, is_back, Throws, in_factory, in_runner, in_loop, counts, Step,
  spawns, creates, sets, wakes, calls, stops, ends, joins, throws, Steps, Event, leaves, Reach,
  at_begin, by_step, by_event, here, next,
}

-- The places that go together.
abbrev fits : Caller → Worker → Bool → Bool
fits starting absent promised = not promised
fits starting _ promised = false
fits waiting absent promised = false
fits waiting creating promised = not promised
fits waiting setting promised = not promised
fits waiting _ promised = promised
fits returned calling promised = promised
fits returned serving promised = promised
fits returned over promised = promised
fits returned _ promised = false
fits joining calling promised = promised
fits joining serving promised = promised
fits joining over promised = promised
fits joining _ promised = false
fits joined over promised = promised
fits joined _ promised = false
fits aborted over promised = true
fits aborted _ promised = false

abbrev Fits : Runner → Type 0
Fits s = fits s.caller s.worker s.promised ≡ true

-- A caller that waits for the thread has told the server to end, or the thread has ended.
abbrev has_told : Caller → Worker → Bool → Bool
has_told joining over told = true
has_told joining _ told = told
has_told _ _ told = true

abbrev HasTold : Runner → Type 0
HasTold s = has_told s.caller s.worker s.told ≡ true

Event-Fits : {s t : Runner} → Event s t → Fits s → Fits t
Event-Fits (throws s h) f = refl
Event-Fits (leaves s w) f = ground arith

Event-HasTold : {s t : Runner} → Event s t → HasTold s → HasTold t
Event-HasTold (throws s h) f = refl
Event-HasTold (leaves s w) f = ground arith

module _ (keeps : Bool) where
  Step-Fits : {s t : Runner} → Step keeps s t → Fits s → Fits t
  Step-Fits (spawns s c) f = ground arith
  Step-Fits (creates s w) f = ground arith
  Step-Fits (sets s w) f = ground arith
  Step-Fits (wakes s c p) f = ground arith
  Step-Fits (calls s w) f = ground arith
  Step-Fits (stops s c) f = ground arith
  Step-Fits (ends s w t) f = ground arith
  Step-Fits (joins s c w) f = ground arith

  Reach-Fits : {s : Runner} → Reach keeps s → Fits s
  Reach-Fits at_begin = refl
  Reach-Fits (by_step r step) = Step-Fits step (Reach-Fits r)
  Reach-Fits (by_event r event) = Event-Fits event (Reach-Fits r)

  Step-HasTold : {s t : Runner} → keeps ≡ true → Step keeps s t → Fits s → HasTold s → HasTold t
  Step-HasTold k (spawns s c) f h = refl
  Step-HasTold k (creates s w) f h = ground arith
  Step-HasTold k (sets s w) f h = ground arith
  Step-HasTold k (wakes s c p) f h = refl
  Step-HasTold k (calls s w) f h = ground arith
  Step-HasTold k (stops s c) f h = ground arith
  Step-HasTold k (ends s w t) f h = ground arith
  Step-HasTold k (joins s c w) f h = refl

  Reach-HasTold : {s : Runner} → keeps ≡ true → Reach keeps s → HasTold s
  Reach-HasTold k at_begin = refl
  Reach-HasTold k (by_step r step) = Step-HasTold k step (Reach-Fits r) (Reach-HasTold k r)
  Reach-HasTold k (by_event r event) = Event-HasTold event (Reach-HasTold k r)

  -- Whatever the order of the steps, `startServer` has returned only where the promise has its server
  -- or the program was ended, so the factory, which the thread holds by reference too, is there while
  -- it is called.
  pub Reach-kept :
      {s : Runner}
      → Reach keeps s
      → (s.caller ≡ returned → s.promised ≡ true) × (s.worker ≡ creating → is_back s.caller ≡ false)
  Reach-kept {s} r = let f = Reach-Fits r in (λ h. ground arith, λ h. ground arith)

  -- Whichever thread goes first, and whatever else happens, the caller comes behind its join or the
  -- program is ended by an exception after finitely many steps, and before that one of the threads can
  -- go on by itself.
  pub data Ends : Runner → Type 0 where
    done : (s : Runner) → (s.caller ≡ joined) ⊎ (s.caller ≡ aborted) → Ends s
    later :
        (s : Runner)
        → ((t : Runner) × Step keeps s t)
        → ((t : Runner) → Step keeps s t ⊎ Event s t → Ends t)
        → Ends s

abbrev caller_left : Caller → ℕ
caller_left starting = 4
caller_left waiting = 3
caller_left returned = 2
caller_left joining = 1
caller_left _ = 0

abbrev worker_left : Worker → ℕ
worker_left absent = 5
worker_left creating = 5
worker_left setting = 4
worker_left calling = 3
worker_left serving = 2
worker_left over = 1

-- The steps that are left.
abbrev steps_left : Runner → ℕ
steps_left s = caller_left s.caller + worker_left s.worker

Throws-lt : {w : Worker} → Throws w → 1 < worker_left w
Throws-lt in_factory = omega arith
Throws-lt in_runner = omega arith
Throws-lt in_loop = omega arith

Event-lt : {s t : Runner} → Event s t → steps_left t < steps_left s
Event-lt (throws s h) = omega (arith, Throws-lt h)
Event-lt (leaves s w) = ground arith

module _ (keeps : Bool) where
  Step-lt : {s t : Runner} → Step keeps s t → Fits s → steps_left t < steps_left s
  Step-lt (spawns s c) f = ground arith
  Step-lt (creates s w) f = ground arith
  Step-lt (sets s w) f = ground arith
  Step-lt (wakes s c p) f = ground arith
  Step-lt (calls s w) f = ground arith
  Step-lt (stops s c) f = ground arith
  Step-lt (ends s w t) f = ground arith
  Step-lt (joins s c w) f = ground arith

  change-lt : {s t : Runner} → Step keeps s t ⊎ Event s t → Fits s → steps_left t < steps_left s
  change-lt (inl step) f = Step-lt step f
  change-lt (inr event) f = Event-lt event

  module _ (s : Runner) (f : Fits s) (h : HasTold s) where
    abbrev Goes : Type 0
    Goes = ((s.caller ≡ joined) ⊎ (s.caller ≡ aborted)) ⊎ ((t : Runner) × Step keeps s t)

    by_place : (c : Caller) (w : Worker) → s.caller ≡ c → s.worker ≡ w → Goes
    by_place starting w c e = inr (_, spawns s c)
    by_place waiting creating c e = inr (_, creates s e)
    by_place waiting setting c e = inr (_, sets s e)
    by_place waiting calling c e = inr (_, calls s e)
    by_place waiting serving c e = inr (_, wakes s c (ground arith))
    by_place waiting over c e = inr (_, wakes s c (ground arith))
    by_place waiting absent c e = absurd (ground arith)
    by_place returned w c e = inr (_, stops s c)
    by_place joining calling c e = inr (_, calls s e)
    by_place joining serving c e = inr (_, ends s e (ground arith))
    by_place joining over c e = inr (_, joins s c e)
    by_place joining absent c e = absurd (ground arith)
    by_place joining creating c e = absurd (ground arith)
    by_place joining setting c e = absurd (ground arith)
    by_place joined w c e = inl (inl c)
    by_place aborted w c e = inl (inr c)

  change-HasTold :
      {s t : Runner}
      → keeps ≡ true
      → Step keeps s t ⊎ Event s t
      → Fits s
      → HasTold s
      → Fits t × HasTold t
  change-HasTold k (inl step) f h = (Step-Fits keeps step f, Step-HasTold keeps k step f h)
  change-HasTold k (inr event) f h = (Event-Fits event f, Event-HasTold event h)

  Fits-Ends :
      (n : ℕ) (s : Runner) → keeps ≡ true → steps_left s < n → Fits s → HasTold s → Ends keeps s
  Fits-Ends zero s k l f h = absurd (omega arith)
  Fits-Ends (suc n) s k l f h = elim (by_place s f h s.caller s.worker refl refl) [
    | inl e ↦ done s e
    | inr first ↦ later s first (λ t change.
        let (f', h') = change-HasTold k change f h in
        Fits-Ends n t k (omega (arith, change-lt change f)) f' h')
  ]

  -- From every state that the two threads of a server that keeps a stop can reach, whichever of them
  -- goes first from there on, after finitely many steps the caller is behind its join, or an exception
  -- has ended the program, and before that one of the threads can go on by itself.
  pub Reach-Ends : {s : Runner} → keeps ≡ true → Reach keeps s → Ends keeps s
  Reach-Ends {s} k r =
      Fits-Ends (suc (steps_left s)) s k (omega arith) (Reach-Fits keeps r)
        (Reach-HasTold keeps k r)

-- The caller waits at its join, and the thread runs a server that nobody told to end.
record IsLost (s : Runner) : Type 0 where
  waits : s.caller ≡ joining
  runs : (s.worker ≡ calling) ⊎ (s.worker ≡ serving)
  untold : s.told ≡ false

Step-IsLost : {s t : Runner} → Step false s t → IsLost s → IsLost t
Step-IsLost (spawns s c) h = absurd (ground (arith, h.waits))
Step-IsLost (creates s w) h = absurd (ground (arith, h.runs))
Step-IsLost (sets s w) h = absurd (ground (arith, h.runs))
Step-IsLost (wakes s c p) h = absurd (ground (arith, h.waits))
Step-IsLost (calls s w) h = record { waits = h.waits; runs = inr refl; untold = h.untold }
Step-IsLost (stops s c) h = absurd (ground (arith, h.waits))
Step-IsLost (ends s w t) h = absurd (ground (arith, h.untold))
Step-IsLost (joins s c w) h = absurd (ground (arith, h.runs))

Steps-IsLost : {s t : Runner} → Steps false s t → IsLost s → IsLost t
Steps-IsLost here h = h
Steps-IsLost (next steps step) h = Step-IsLost step (Steps-IsLost steps h)

-- A server that does not keep a stop: where the caller stops it before its thread has made what the
-- stop acts on, the caller waits at its join, and the thread has not ended, whatever the two threads
-- do from there on (the server's loop goes on until it is told to end, and nothing throws).
pub lost_stop_waits :
    {s u : Runner}
    → Reach false s
    → s.caller ≡ returned
    → s.worker ≡ calling
    → let t = record s { caller = joining; told = counts false s.worker } in
      Steps false t u
      → Step false s t × (u.caller ≡ joining) × ((u.worker ≡ calling) ⊎ (u.worker ≡ serving))
lost_stop_waits {s} {u} r c w steps =
    let lost =
      Steps-IsLost steps (record { waits = refl; runs = inl w; untold = ap (counts false) w }) in
    (stops s c, lost.waits, lost.runs)

-- The thread may call `runner` after `startServer` has returned and destroyed it: there is a state
-- that can be reached in which it has.
pub Reach-dangling : (s : Runner) × Reach true s × (s.dangling ≡ true)
Reach-dangling = (
  _,
  by_step
      (by_step (by_step (by_step (by_step at_begin (spawns _ refl)) (creates _ refl)) (sets _ refl))
        (wakes _ refl refl))
      (calls _ refl),
  refl,
)
