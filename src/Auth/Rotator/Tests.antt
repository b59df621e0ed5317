-- ===== src/Auth/Rotator/Tests.antt =====
-- Two turns of a scheduler, and a turn in which it is cancelled.
use webtool.Prelude.{ℕ, ◌≡◌, ◌≢◌, refl, Bool, true, false, List, [], ◌∷◌, arith}
use webtool.Auth.Rotator.{Turn, returned, running, sleep_time, wrapper}
use webtool.Auth.Rotator.Timing.{calls, wrapper-spaced, wrapper-cancelled}

abbrev turn_at : ℕ → ℕ → Bool → Turn
turn_at s e c = record {
  start_time = s;
  end_time = e;
  func = returned;
  delay_func = returned;
  cancel_called = c;
}

abbrev two_turns : List Turn
two_turns = turn_at 10 12 false ∷ turn_at 110 150 false ∷ []

wrapper-spaced_example :
    (calls (wrapper 100 true two_turns).0 ≡ 10 ∷ 110 ∷ [])
    × ((wrapper 100 true two_turns).1 ≡ running)
unfolding sleep_time
wrapper-spaced_example = wrapper-spaced 100 10 two_turns (
  record {
    starts = refl;
    ends = omega arith;
    short = omega arith;
    returns = refl;
    wakes = refl;
    goes_on = refl;
  },
  (
    record {
      starts = refl;
      ends = omega arith;
      short = omega arith;
      returns = refl;
      wakes = refl;
      goes_on = refl;
    },
    tt,
  ),
)

wrapper-cancelled_example :
    (wrapper 100 true (turn_at 10 12 false ∷ turn_at 110 120 true ∷ turn_at 210 220 false ∷ [])
      ≡ wrapper 100 true (turn_at 10 12 false ∷ turn_at 110 120 true ∷ []))
    × ((wrapper 100 true
          (turn_at 10 12 false ∷ turn_at 110 120 true ∷ turn_at 210 220 false ∷ [])).1
        ≢ running)
wrapper-cancelled_example =
    wrapper-cancelled 100 (turn_at 10 12 false ∷ []) (turn_at 110 120 true)
      (turn_at 210 220 false ∷ []) refl
