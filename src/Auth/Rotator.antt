-- ===== src/Auth/Rotator.antt =====
-- webtool/auth/rotator.py, `Scheduler`. Times are milliseconds, also `delay`. The loop takes its
-- turns as a list: the two readings of the clock around the call of `func`, how the call and the
-- sleep ended, and whether `cancel` has set `_run` to false by the end of the turn.
pub mod Timing
mod Tests
use webtool.Prelude.{
  ℕ, ◌-◌, ◌+◌, Bool, true, false, not, Option, none, some, List, [], ◌∷◌, ltb, if◌then◌else◌,
}
use webtool.Result.{Exception}

-- How an awaited call ends: `CancelledError` is no `Exception` that other code handles.
pub data Ended : Type 0 where
  returned : Ended
  cancelled : Ended
  raised : Exception → Ended

pub record Turn : Type 0 where
  pub start_time : ℕ
  pub end_time : ℕ
  pub func : Ended
  pub delay_func : Ended
  pub cancel_called : Bool

-- The state of the task: going on, over, or over with an exception.
pub data Task : Type 0 where
  running : Task
  finished : Task
  failed : Exception → Task

-- `sleep_time if sleep_time > 0 else 1`
unfoldable pub sleep_time : ℕ → ℕ → ℕ → ℕ
sleep_time delay start_time end_time =
    let execution_time = end_time - start_time in
    if ltb execution_time delay then delay - execution_time else 1000

-- What a turn did: the time of the call, and how long the sleep was asked to be, if it came to it.
pub data Event : Type 0 where
  called : ℕ → Event
  slept : ℕ → Event

abbrev pub asleep : Ended → ℕ → List Event × Task → List Event × Task
asleep returned n (events, task) = (slept n ∷ events, task)
asleep cancelled n rest = (slept n ∷ [], finished)
asleep (raised e) n rest = (slept n ∷ [], failed e)

abbrev pub called_at : ℕ → List Event × Task → List Event × Task
called_at t (events, task) = (called t ∷ events, task)

abbrev pub call_ended : Ended → ℕ → List Event × Task → List Event × Task
call_ended returned t later = called_at t later
call_ended cancelled t later = called_at t ([], finished)
call_ended (raised e) t later = called_at t ([], failed e)

abbrev pub turn : ℕ → Turn → List Event × Task → List Event × Task
turn delay r rest =
    call_ended r.func r.start_time
      (asleep r.delay_func (sleep_time delay r.start_time r.end_time) rest)

-- `_wrapper`, from the test of `self._run` on.
unfoldable pub wrapper : ℕ → Bool → List Turn → List Event × Task
wrapper delay run [] = if run then ([], running) else ([], finished)
wrapper delay run (r ∷ rs) =
    let rest = wrapper delay (if r.cancel_called then false else run) rs in
    if run then turn delay r rest else ([], finished)

pub record Scheduler : Type 0 where
  pub run : Bool
  pub task : Option Task

abbrev pub is_done : Task → Bool
is_done running = false
is_done finished = true
is_done (failed e) = true

-- `cancel`: the second result tells whether the task is cancelled, which raises `CancelledError`
-- in it.
unfoldable pub cancel : Scheduler → Scheduler × Bool
cancel s =
    (record { run = false; task = s.task }, elim s.task [ none ↦ false | some t ↦ not (is_done t) ])

-- `run`, with the start of the task.
unfoldable pub run_scheduler : Scheduler → Scheduler
run_scheduler s = record { run = s.run; task = some running }
