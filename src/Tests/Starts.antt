-- ===== src/Tests/Starts.antt =====
-- The command line, the set-up of the threads, and their starts, at concrete inputs.
use cannelloni.Prelude.{
  ℕ, ◌+◌, ◌-◌, ◌*◌, ◌%◌, ◌^◌, ◌<◌, ◌≡◌, refl, ◌≢◌, inl, true, false, Option, none, some, List, [],
  ◌∷◌, ◌++◌, arith, ltb, ◌==◌, if◌then◌else◌, length, replicate,
}
use cannelloni.Frame.{Frame}
use cannelloni.Timer.{ItimerSpec, get_value}
use cannelloni.TimeoutTable.{
  parse, parse_lines, parse_line, is_comment, find_first, find_last_not, later, position, read_line,
  split_at, convert, add, insert, contains,
}
use cannelloni.TimeoutTable.Stream.{open_stream, parse_stream, close_stream}
use cannelloni.CanThread.{CanThread, Sent, transmit_buffer}
use cannelloni.CanThread.Start.{
  Interface, init, start, switch_to_fd, ifr_mtu, AllClassic, start-AllClassic,
}
use cannelloni.Main.{
  Config, goes_on, defaults, inet_addrstrlen, copy_text, set_option, read_options, check_options,
  has_peer, parse_options,
}
use cannelloni.Main.Options.{IsInRange, NamesPeer, parse_options-Runs}
use cannelloni.Main.Setup.{address, no_text, opened, parsed, parse_file, load_table}
use cannelloni.Main.Addresses.{address-copy_text}
use cannelloni.Main.Ready.{IsConfigured}
use cannelloni.System.Alarm.{IsAwake}
use cannelloni.System.Start.{at_loops, set_up-IsAwake}
use cannelloni.Thread.{
  Thread, new_thread, Reach, here, next, start_sets_started, start_creates, start_sets_running,
  stops, joins, at_end, run_returns, resets_running, resets_started, outside, created, absent,
  in_run, is_running,
}
use cannelloni.Thread.Flags.{start_race}
use cannelloni.Tests.Threads.{gettime, settime, reads_back, off, waiting}

-- A number in decimal digits.
abbrev number : ℕ → List ℕ → ℕ
number n [] = n
number n (c ∷ cs) = number (10 * n + (c - 48)) cs

abbrev strtoul : List ℕ → ℕ
strtoul text = number 0 text

abbrev ip : List ℕ
ip = b'1' ∷ b'0' ∷ b'.' ∷ b'0' ∷ b'.' ∷ b'0' ∷ b'.' ∷ b'1' ∷ []

-- `-R 10.0.0.1 -t 500 -T t -s`.
abbrev options : List (ℕ × List ℕ)
options = (b'R', ip) ∷ (b't', b'5' ∷ b'0' ∷ b'0' ∷ []) ∷ (b'T', b't' ∷ []) ∷ (b's', []) ∷ []

abbrev config : Config
config = record defaults {
  remote_ip = ip ++ replicate 8 0;
  remote_ip_supplied = true;
  buffer_timeout = 500;
  timeout_table_file = b't' ∷ [];
  sort_udp = true;
}

accepted : parse_options true strtoul options ≡ goes_on config
unfolding parse_options read_options set_option copy_text check_options has_peer
accepted = refl

parse_options-Runs_example : IsInRange config × NamesPeer true options × (0 < config.buffer_timeout)
parse_options-Runs_example = parse_options-Runs true strtoul options config accepted

abbrev read_value : List ℕ → Option ℕ
read_value text = some (strtoul text % 2 ^ 32)

read_value-range : (text : List ℕ) (v : ℕ) → read_value text ≡ some v → v < 2 ^ 32
read_value-range text v e = let same : strtoul text % 2 ^ 32 ≡ v = cc in omega (arith, same)

-- The file has the line `5,7`.
abbrev open_file : List ℕ → Option (List (List ℕ))
open_file name = some ((b'5' ∷ b',' ∷ b'7' ∷ []) ∷ [])

loaded : load_table read_value read_value open_file config ≡ goes_on ((5, 7) ∷ [])
unfolding load_table parse_file opened parsed no_text open_stream parse_stream close_stream parse
    parse_lines parse_line is_comment find_first find_last_not later position read_line split_at
    convert add insert contains
loaded = refl

set_up-IsAwake_example :
    IsAwake gettime settime reads_back []
      (at_loops gettime settime off off off ((5, 7) ∷ []) 3 config)
    × (0
        < get_value gettime settime
            (at_loops gettime settime off off off ((5, 7) ∷ []) 3 config).net.transmit_timer)
    × IsConfigured (at_loops gettime settime off off off ((5, 7) ∷ []) 3 config).net
set_up-IsAwake_example =
    set_up-IsAwake gettime settime reads_back true strtoul read_value read_value open_file off off
      off options config ((5, 7) ∷ []) 3 read_value-range accepted loaded

abbrev inet_pton : List ℕ → Option ℕ
inet_pton text = if length text == 8 then some 3 else none

address-copy_text_example : address inet_pton (copy_text ip) ≡ (
    if ltb (length ip) inet_addrstrlen
    then some (elim (inet_pton ip) [ none ↦ 0 | some addr ↦ addr ])
    else none)
address-copy_text_example =
    address-copy_text inet_pton ip
      (refl, (refl, (refl, (refl, (refl, (refl, (refl, (refl, tt))))))))

-- A thread in `start`, before it sets `m_running`.
abbrev starting : Thread
starting = record {
  started = true;
  running = false;
  has_thread = true;
  owner = created;
  worker = in_run;
}

-- A thread that was started, stopped and joined.
abbrev joined : Thread
joined = new_thread

life : Reach new_thread joined
life =
    next
      (next
        (next
          (next
            (next
              (next (next (next here (start_sets_started refl)) (start_creates refl refl))
                (start_sets_running refl))
              (stops refl))
            (run_returns refl))
          (resets_running refl))
        (resets_started refl))
      (joins refl at_end)

start_race_example :
    (u : Thread) × Reach starting u
    × (u.worker ≡ absent)
    × (u.has_thread ≡ false)
    × (u.owner ≡ outside)
    × (is_running u ≡ true)
start_race_example = start_race starting refl refl

-- An interface for CAN only.
abbrev classic : Interface
classic = record { has_socket = true; index = some 3; mtu = some 16; switched = true; bound = true }

abbrev can : CanThread ItimerSpec
can = record { frame_buffer = waiting; timer = off; canfd = false; rx_count = 0; tx_count = 0 }

started : start classic (init off waiting) ≡ some can
unfolding start init switch_to_fd ifr_mtu
started = refl

no_fd : ifr_mtu 3 (some 16) ≢ 72
unfolding ifr_mtu
no_fd e = absurd (omega arith)

abbrev write : ℕ → Frame → ℕ → Option ℕ
write k f mtu = some mtu

start-AllClassic_example :
    (s : Sent ItimerSpec) × (transmit_buffer gettime settime write can ≡ some s)
    × AllClassic s.frames
start-AllClassic_example =
    start-AllClassic gettime settime write classic 3 off waiting waiting can refl (inl no_fd)
      started
