-- ===== src/Clock.antt =====
-- The clocks of native/shim/mquickjs_kmp.c: get_time_ms, get_date_ms, and the functions of Date and
-- performance that the tables of the standard library name. The clocks themselves, and the calls that
-- make a date or an int64_t, are parameters. An int64_t is its bit pattern.
pub mod Order
pub mod Tests
use mquickjs_kmp.Prelude.{
  ℕ, ◌+◌, ◌*◌, ◌/◌, ◌%◌, ◌^◌, ◌==◌, Bool, true, false, ◌&&◌, Option, none, some, if◌then◌else◌,
  codes,
}
use mquickjs_kmp.Engine.{Doubles, Engine, Act, pure, ◌>>=◌, ◌>>◌, case_of, ask, Vm}
use mquickjs_kmp.GcRefs.{GcRefs}

-- struct timespec and struct timeval.
pub record Timespec : Type 0 where
  pub tv_sec : ℕ
  pub tv_nsec : ℕ

pub record Timeval : Type 0 where
  pub tv_sec : ℕ
  pub tv_usec : ℕ

-- get_time_ms and get_date_ms, of what clock_gettime and gettimeofday have said.
unfoldable pub get_time_ms : Timespec → ℕ
get_time_ms ts = (ts.tv_sec * 1000 + ts.tv_nsec / 1000000) % 2 ^ 64

unfoldable pub get_date_ms : Timeval → ℕ
get_date_ms tv = (tv.tv_sec * 1000 + tv.tv_usec / 1000) % 2 ^ 64

-- The clocks, the conversion of an int64_t to a double, and JS_NewDate and JS_NewInt64.
pub record Clocks (g : GcRefs) (d : Doubles) : Type 0 where
  pub monotonic : Engine g → Timespec
  pub time_of_day : Engine g → Timeval
  pub of_int64 : ℕ → d.Num
  pub new_date : d.Num → Act g g.Val
  pub new_int64 : ℕ → Act g g.Val

-- argc & ~FRAME_CF_CTOR, where FRAME_CF_CTOR is bit 16.
abbrev pub without_ctor_flag : ℕ → ℕ
without_ctor_flag argc = argc / 2 ^ 17 * 2 ^ 17 + argc % 2 ^ 16

module _ {g : GcRefs} {d : Doubles} (vm : Vm g d) (c : Clocks g d) where
  -- js_date_constructor with its only argument, a number.
  unfoldable pub date_of : g.Val → Act g g.Val
  date_of v = do val ← vm.to_number v; case_of val (pure g vm.exception_value) c.new_date

  unfoldable pub date_of_one : (ℕ → Engine g → g.Val) → Act g g.Val
  date_of_one argv = ask (argv 0) (λ v.
      ask (λ e. vm.is_number e v)
        (λ number.
          if number then date_of v else vm.throw_type_error (codes "unsupported Date() parameter")))

  -- js_date_constructor.
  unfoldable pub js_date_constructor : ℕ → (ℕ → Engine g → g.Val) → Act g g.Val
  js_date_constructor argc argv =
      if without_ctor_flag argc == 0
      then ask (λ e. c.of_int64 (get_date_ms (c.time_of_day e))) c.new_date
      else if without_ctor_flag argc == 1
      then date_of_one argv
      else vm.throw_type_error (codes "unsupported Date() parameter")

  -- js_date_now and js_performance_now.
  unfoldable pub js_date_now : Act g g.Val
  js_date_now = ask (λ e. get_date_ms (c.time_of_day e)) c.new_int64

  unfoldable pub js_performance_now : Act g g.Val
  js_performance_now = ask (λ e. get_time_ms (c.monotonic e)) c.new_int64
