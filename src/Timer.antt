-- ===== src/Timer.antt =====
-- timer.h and timer.cpp: a timer over a timerfd of the kernel. The two system calls are parameters;
-- the laws say that a setting is read back, as long as no time has passed.
pub mod Laws
use cannelloni.Prelude.{
  ℕ, ◌+◌, ◌-◌, ◌*◌, ◌/◌, ◌%◌, ◌^◌, Bool, not, Option, none, some, ◌==◌, if◌then◌else◌,
}

-- `struct itimerspec`.
pub record ItimerSpec : Type 0 where
  pub interval_sec : ℕ
  pub interval_nsec : ℕ
  pub value_sec : ℕ
  pub value_nsec : ℕ

-- `if (value == 0) value = 1;`
unfoldable pub at_least_one : ℕ → ℕ
at_least_one n = if n == 0 then 1 else n

unfoldable pub to_itimerspec : ℕ → ℕ → ItimerSpec
to_itimerspec interval value = record {
  interval_sec = interval / 1000000;
  interval_nsec = interval % 1000000 * 1000;
  value_sec = value / 1000000;
  value_nsec = value % 1000000 * 1000;
}

-- `Timer::read`: the count of expirations, or -1 as a `uint64_t` if the read failed.
unfoldable pub read : Option ℕ → ℕ
read none = 2 ^ 64 - 1
read (some num_exp) = num_exp

module _ {Fd : Type 0} (gettime : Fd → ItimerSpec) (settime : ItimerSpec → Fd → Fd) where
  unfoldable pub get_value : Fd → ℕ
  get_value fd = ((gettime fd).value_sec * 1000000 + (gettime fd).value_nsec / 1000) % 2 ^ 64

  unfoldable pub adjust : ℕ → ℕ → Fd → Fd
  adjust interval value fd = settime (to_itimerspec (at_least_one interval) (at_least_one value)) fd

  unfoldable pub disable : Fd → Fd
  disable fd = settime (record (gettime fd) { value_sec = 0; value_nsec = 0 }) fd

  unfoldable pub enable : Fd → Fd
  enable fd =
      settime
        (record (gettime fd) {
          value_sec = (gettime fd).interval_sec;
          value_nsec = (gettime fd).interval_nsec;
        })
        fd

  unfoldable pub fire : Fd → Fd
  fire fd =
      adjust (((gettime fd).interval_sec * 1000 + (gettime fd).interval_nsec / 1000) % 2 ^ 64) 1 fd

  unfoldable pub is_enabled : Fd → Bool
  is_enabled fd = not (get_value fd == 0)
