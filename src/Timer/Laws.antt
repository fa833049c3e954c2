-- ===== src/Timer/Laws.antt =====
-- What the timer of timer.cpp does, read in microseconds.
use cannelloni.Prelude.{ℕ, ◌+◌, ◌*◌, ◌/◌, ◌%◌, ◌^◌, ◌<◌, ◌≡◌, refl, ◌↔◌, true, false, arith}
use cannelloni.Timer.{
  ItimerSpec, at_least_one, to_itimerspec, get_value, adjust, disable, enable, fire, is_enabled,
}

module _ {Fd : Type 0} (gettime : Fd → ItimerSpec) (settime : ItimerSpec → Fd → Fd) where
  -- Right after a setting the kernel gives it back.
  abbrev pub ReadsBack : Type 0
  ReadsBack = (ts : ItimerSpec) (fd : Fd) → gettime (settime ts fd) ≡ ts

  -- The interval that stands in the kernel, in microseconds.
  unfoldable pub interval_of : Fd → ℕ
  interval_of fd = (gettime fd).interval_sec * 1000000 + (gettime fd).interval_nsec / 1000

  -- `adjust` sets value and interval, where 0 stands for 1, and leaves the timer enabled.
  pub adjust_lem :
      (interval value : ℕ) (fd : Fd)
      → ReadsBack
      → value < 2 ^ 64
      → (get_value gettime settime (adjust gettime settime interval value fd) ≡ at_least_one value)
        × (interval_of (adjust gettime settime interval value fd) ≡ at_least_one interval)
        × (is_enabled gettime settime (adjust gettime settime interval value fd) ≡ true)
  unfolding get_value adjust interval_of is_enabled to_itimerspec at_least_one
  adjust_lem interval value fd law range =
      let ts : ItimerSpec = to_itimerspec (at_least_one interval) (at_least_one value) in
      (rw (law ts fd) (ground arith), rw (law ts fd) (ground arith), rw (law ts fd) (ground arith))

  -- A disabled timer is off and keeps its interval; `enable` starts it again for one interval.
  pub enable-disable :
      (fd : Fd)
      → ReadsBack
      → interval_of fd < 2 ^ 64
      → (is_enabled gettime settime (disable gettime settime fd) ≡ false)
        × (interval_of (disable gettime settime fd) ≡ interval_of fd)
        × (get_value gettime settime (enable gettime settime (disable gettime settime fd))
            ≡ interval_of fd)
  unfolding get_value disable enable interval_of is_enabled
  enable-disable fd law range = (rw law refl, rw law refl, rw law (rw law (omega arith)))

  gettime-fire :
      (interval value : ℕ) (fd : Fd)
      → ReadsBack
      → 0 < interval
      → interval < 2 ^ 64
      → gettime (fire gettime settime (adjust gettime settime interval value fd))
        ≡ to_itimerspec (interval / 1000000 * 1000 + interval % 1000000) 1
  unfolding adjust fire at_least_one
  gettime-fire interval value fd law positive range =
      let ts : ItimerSpec = to_itimerspec (at_least_one interval) (at_least_one value) in
      rw (law _ (settime ts fd), law ts fd) (unfold to_itimerspec in ground arith)

  -- `fire` lets the timer expire after a microsecond. It keeps an interval of less than a second, and
  -- makes a longer one shorter, since it counts a second as a thousand microseconds.
  pub fire-adjust :
      (interval value : ℕ) (fd : Fd)
      → ReadsBack
      → 0 < interval
      → interval < 2 ^ 64
      → let fired = fire gettime settime (adjust gettime settime interval value fd) in
        (get_value gettime settime fired ≡ 1)
        × (interval_of fired ≡ interval / 1000000 * 1000 + interval % 1000000)
        × ((interval < 1000000) ↔ (interval_of fired ≡ interval))
  unfolding get_value interval_of to_itimerspec
  fire-adjust interval value fd law positive range =
      rw (gettime-fire interval value fd law positive range)
        (omega arith, omega arith, (λ h. omega arith, λ h. omega arith))
