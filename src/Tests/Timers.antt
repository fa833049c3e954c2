-- ===== src/Tests/Timers.antt =====
-- Runs of the timer at concrete inputs. The descriptor is the setting itself.
use cannelloni.Prelude.{◌+◌, ◌*◌, ◌/◌, ◌%◌, ◌<◌, ◌≡◌, ◌↔◌, refl, arith}
use cannelloni.Timer.{ItimerSpec, get_value, adjust, fire}
use cannelloni.Timer.Laws.{ReadsBack, interval_of, fire-adjust}

abbrev gettime : ItimerSpec → ItimerSpec
gettime ts = ts

abbrev settime : ItimerSpec → ItimerSpec → ItimerSpec
settime ts fd = ts

reads_back : ReadsBack gettime settime
reads_back ts fd = refl

abbrev running : ItimerSpec
running = record { interval_sec = 2; interval_nsec = 0; value_sec = 0; value_nsec = 500000 }

fire-adjust_example :
    let fired = fire gettime settime (adjust gettime settime 2000000 2000000 running) in
    (get_value gettime settime fired ≡ 1)
    × (interval_of gettime settime fired ≡ 2000000 / 1000000 * 1000 + 2000000 % 1000000)
    × ((2000000 < 1000000) ↔ (interval_of gettime settime fired ≡ 2000000))
fire-adjust_example =
    fire-adjust gettime settime 2000000 2000000 running reads_back (omega arith) (omega arith)
