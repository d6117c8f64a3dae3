-- ===== src/Clock/Order.antt =====
-- The order of the clocks' readings.
use mquickjs_kmp.Prelude.{ℕ, ap, ◌+◌, ◌*◌, ◌/◌, ◌^◌, ◌≤◌, ◌<◌, ◌≡◌, arith}
use mquickjs_kmp.Clock.{Timespec, get_time_ms, Clocks, js_performance_now}
use mquickjs_kmp.Engine.{Doubles, Engine, Vm, ask}
use mquickjs_kmp.GcRefs.{GcRefs}

-- A reading in nanoseconds, and one that clock_gettime can give: fewer than 10^9 nanoseconds, and a
-- number of milliseconds that an int64_t holds.
abbrev pub nanoseconds : Timespec → ℕ
nanoseconds ts = ts.tv_sec * 1000000000 + ts.tv_nsec

pub record Reading (ts : Timespec) : Type 0 where
  pub nsec : ts.tv_nsec < 1000000000
  pub fits : ts.tv_sec * 1000 + 1000 ≤ 2 ^ 63

get_time_ms-exact :
    (ts : Timespec) → Reading ts → get_time_ms ts ≡ ts.tv_sec * 1000 + ts.tv_nsec / 1000000
unfolding get_time_ms
get_time_ms-exact ts r = omega (arith, r.nsec, r.fits)

-- The whole milliseconds of a reading, by division of its nanoseconds.
abbrev pub whole_ms : Timespec → ℕ
whole_ms ts = nanoseconds ts / 1000000

get_time_ms-whole : (ts : Timespec) → Reading ts → get_time_ms ts ≡ whole_ms ts
get_time_ms-whole ts r = omega (arith, get_time_ms-exact ts r, r.nsec)

module _ {g : GcRefs} {d : Doubles} (vm : Vm g d) (c : Clocks g d) where
  js_performance_now-whole :
      (e : Engine g)
      → Reading (c.monotonic e)
      → js_performance_now vm c e ≡ c.new_int64 (whole_ms (c.monotonic e)) e
  unfolding js_performance_now ask
  js_performance_now-whole e r = ap (λ n. c.new_int64 n e) (get_time_ms-whole (c.monotonic e) r)

  -- For two engines whose readings of the monotonic clock an int64_t can hold in milliseconds, and the
  -- second not earlier than the first: js_performance_now gives what JS_NewInt64 makes of the whole
  -- milliseconds of the monotonic reading, on either engine, the second of the two numbers is not the
  -- smaller, and neither is negative as an int64_t.
  pub performance_never_back :
      (e e' : Engine g)
      → Reading (c.monotonic e)
      → Reading (c.monotonic e')
      → nanoseconds (c.monotonic e) ≤ nanoseconds (c.monotonic e')
      → (js_performance_now vm c e ≡ c.new_int64 (whole_ms (c.monotonic e)) e)
        × (js_performance_now vm c e' ≡ c.new_int64 (whole_ms (c.monotonic e')) e')
        × (whole_ms (c.monotonic e) ≤ whole_ms (c.monotonic e'))
        × (whole_ms (c.monotonic e') < 2 ^ 63)
  performance_never_back e e' r q h = (
    js_performance_now-whole e r,
    js_performance_now-whole e' q,
    omega (arith, h),
    omega (arith, q.nsec, q.fits),
  )
