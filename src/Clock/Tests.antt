-- ===== src/Clock/Tests.antt =====
-- Readings of the clocks, and Date over the small JavaScript engine.
use mquickjs_kmp.Prelude.{length, [], ◌∷◌, ◌+◌, ◌^◌, ◌≤◌, ◌<◌, ◌≡◌, refl, arith}
use mquickjs_kmp.Clock.Order.{performance_never_back}
use mquickjs_kmp.Clock.{
  Timespec, get_date_ms, Clocks, date_of, date_of_one, js_date_constructor, js_date_now,
  js_performance_now,
}
use mquickjs_kmp.Engine.Tests.{whole, small, fresh}
use mquickjs_kmp.Buffer.{empty_buffer}
use mquickjs_kmp.Engine.{Engine, pure, ◌>>=◌, case_of, ask}
use mquickjs_kmp.Slots.Tests.{set_of_roots}

abbrev earlier : Timespec
earlier = record { tv_sec = 7; tv_nsec = 999999999 }

abbrev later : Timespec
later = record { tv_sec = 8; tv_nsec = 0 }

-- A clock that stands at 1.5 seconds.
abbrev stopped : Clocks set_of_roots whole
stopped = record {
  monotonic = λ e. later;
  time_of_day = λ e. record { tv_sec = 1; tv_usec = 500999 };
  of_int64 = λ n. n;
  new_date = λ n. pure set_of_roots n;
  new_int64 = λ n. pure set_of_roots n;
}

-- A clock that goes on by a second with every byte of the log line.
abbrev ticking : Clocks set_of_roots whole
ticking = record stopped {
  monotonic = λ e. record { tv_sec = 7 + length e.log_line.bytes; tv_nsec = 0 };
}

abbrev logged : Engine set_of_roots
logged = record fresh { log_line = record empty_buffer { bytes = 65 ∷ [] } }

now : (js_date_now small stopped fresh).0 ≡ 1500
unfolding js_date_now get_date_ms ask pure
now = refl

-- new Date(), Date of the number 2, and Date of two arguments, which throws.
new_date : (js_date_constructor small stopped (2 ^ 16) (λ i e. 12) fresh).0 ≡ 1500
unfolding js_date_constructor get_date_ms ask pure
new_date = refl

date_of_number : (js_date_constructor small stopped 1 (λ i e. 12) fresh).0 ≡ 2
unfolding js_date_constructor date_of_one date_of ask pure case_of ◌>>=◌
date_of_number = refl

two_arguments : (js_date_constructor small stopped 2 (λ i e. 12) fresh).0 ≡ 2
unfolding js_date_constructor pure
two_arguments = refl

performance_never_back_example :
    (js_performance_now small ticking fresh ≡ pure set_of_roots 7000 fresh)
    × (js_performance_now small ticking logged ≡ pure set_of_roots 8000 logged)
    × (7000 ≤ 8000)
    × (8000 < 2 ^ 63)
performance_never_back_example =
    performance_never_back small ticking fresh logged
      (record { nsec = omega arith; fits = omega arith })
      (record { nsec = omega arith; fits = omega arith }) (omega arith)
