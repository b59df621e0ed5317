-- ===== src/Auth/Rotator/Timing.antt =====
-- The times of the scheduler's calls, and its end.
use webtool.Prelude.{
  ℕ, zero, suc, ◌+◌, ◌≤◌, ◌<◌, ◌≡◌, ◌≢◌, refl, sym, ap, ◌∙◌, Bool, true, false, inl, inr,
  Bool-cases, List, [], ◌∷◌, ◌++◌, length, arith, if◌then◌else◌,
}
use webtool.Auth.Rotator.{
  Turn, Ended, returned, cancelled, raised, Task, running, finished, Event, called, slept,
  sleep_time, asleep, call_ended, turn, wrapper,
}

abbrev pub calls : List Event → List ℕ
calls [] = []
calls (called t ∷ es) = t ∷ calls es
calls (slept n ∷ es) = calls es

-- Multiples of the delay after a time.
abbrev pub spaced : ℕ → ℕ → ℕ → List ℕ
spaced delay t zero = []
spaced delay t (suc n) = t ∷ spaced delay (t + delay) n

-- Turns from a time on, each with a call that returns before the delay is over, and a sleep that
-- takes the time that it is asked for; nobody cancels.
pub record IsOnTime (delay t : ℕ) (r : Turn) : Type 0 where
  pub starts : r.start_time ≡ t
  pub ends : t ≤ r.end_time
  pub short : r.end_time < t + delay
  pub returns : r.func ≡ returned
  pub wakes : r.delay_func ≡ returned
  pub goes_on : r.cancel_called ≡ false

abbrev pub AreOnTime : ℕ → ℕ → List Turn → Type 0
AreOnTime delay t [] = Unit
AreOnTime delay t (r ∷ rs) =
    IsOnTime delay t r × AreOnTime delay (r.end_time + sleep_time delay r.start_time r.end_time) rs

next_start :
    (delay t : ℕ) (r : Turn)
    → IsOnTime delay t r
    → r.end_time + sleep_time delay r.start_time r.end_time ≡ t + delay
unfolding sleep_time
next_start delay t r h = rw h.starts (ground (arith, h.ends, h.short))

-- The scheduler does not drift: where every call takes less than the delay and every sleep as long
-- as it is asked to, the calls are at the multiples of the delay after the first one, and the task
-- goes on.
pub wrapper-spaced :
    (delay t : ℕ) (rs : List Turn)
    → AreOnTime delay t rs
    → (calls (wrapper delay true rs).0 ≡ spaced delay t (length rs))
      × ((wrapper delay true rs).1 ≡ running)
unfolding wrapper
wrapper-spaced delay t [] h = (refl, refl)
wrapper-spaced delay t (r ∷ rs) (h, hs) =
    let (times, task) = wrapper-spaced delay (t + delay) rs (rw (← next_start delay t r h) hs) in
    rw (h.goes_on, h.returns, h.wakes, h.starts) (ap (λ ts. t ∷ ts) times, task)

stopped : (delay : ℕ) (rs : List Turn) → wrapper delay false rs ≡ ([], finished)
unfolding wrapper
stopped delay [] = refl
stopped delay (r ∷ rs) = refl

finished_apart : finished ≢ running
finished_apart e = ground arith

asleep-ends :
    (d : Ended) (n : ℕ) (rest : List Event × Task)
    → rest.1 ≢ running
    → (asleep d n rest).1 ≢ running
asleep-ends returned n (es, task) h = h
asleep-ends cancelled n (es, task) h = finished_apart
asleep-ends (raised e) n (es, task) h = λ q. ground arith

call_ended-ends :
    (f : Ended) (t : ℕ) (later : List Event × Task)
    → later.1 ≢ running
    → (call_ended f t later).1 ≢ running
call_ended-ends returned t (es, task) h = h
call_ended-ends cancelled t later h = finished_apart
call_ended-ends (raised e) t later h = λ q. ground arith

-- A turn ends the task, or leaves it to the rest.
turn-ends :
    (delay : ℕ) (r : Turn) (rest : List Event × Task)
    → rest.1 ≢ running
    → (turn delay r rest).1 ≢ running
turn-ends delay r rest h =
    call_ended-ends r.func r.start_time _
      (asleep-ends r.delay_func (sleep_time delay r.start_time r.end_time) rest h)

abbrev flag : Bool → Bool
flag cancel_called = if cancel_called then false else true

after_cancel :
    (delay : ℕ) (r : Turn) (rs : List Turn)
    → r.cancel_called ≡ true
    → wrapper delay true (r ∷ rs) ≡ turn delay r ([], finished)
unfolding wrapper
after_cancel delay r rs c =
    ap (λ b. turn delay r (wrapper delay (flag b) rs)) c ∙ ap (turn delay r) (stopped delay rs)

going_on :
    (delay : ℕ) (r : Turn) (rs : List Turn)
    → r.cancel_called ≡ false
    → wrapper delay true (r ∷ rs) ≡ turn delay r (wrapper delay true rs)
unfolding wrapper
going_on delay r rs c = ap (λ b. turn delay r (wrapper delay (flag b) rs)) c

-- After a turn in which `cancel` was called, `func` is not called any more, and the task does not
-- go on: what would come later changes nothing.
pub wrapper-cancelled :
    (delay : ℕ) (before : List Turn) (r : Turn) (later : List Turn)
    → r.cancel_called ≡ true
    → (wrapper delay true (before ++ (r ∷ later)) ≡ wrapper delay true (before ++ (r ∷ [])))
      × ((wrapper delay true (before ++ (r ∷ later))).1 ≢ running)
wrapper-cancelled delay [] r later c = (
  after_cancel delay r later c ∙ sym (after_cancel delay r [] c),
  rw (after_cancel delay r later c) (turn-ends delay r ([], finished) finished_apart),
)
wrapper-cancelled delay (b ∷ before) r later c =
    let (same, ends) = wrapper-cancelled delay before r later c in
    elim (Bool-cases b.cancel_called) [
      | inl now ↦ (
        after_cancel delay b (before ++ (r ∷ later)) now
            ∙ sym (after_cancel delay b (before ++ (r ∷ [])) now),
        rw (after_cancel delay b (before ++ (r ∷ later)) now)
            (turn-ends delay b ([], finished) finished_apart),
      )
      | inr on ↦ (
        going_on delay b (before ++ (r ∷ later)) on
            ∙ (ap (turn delay b) same ∙ sym (going_on delay b (before ++ (r ∷ [])) on)),
        rw (going_on delay b (before ++ (r ∷ later)) on)
            (turn-ends delay b (wrapper delay true (before ++ (r ∷ later))) ends),
      )
    ]
