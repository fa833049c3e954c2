-- ===== src/Tests/Threads.antt =====
-- Runs of the threads at concrete inputs.
use cannelloni.Prelude.{
  ℕ, zero, suc, ◌+◌, ◌%◌, ◌≤◌, ◌<◌, ◌≡◌, refl, true, false, Option, none, some, List, [], ◌∷◌, ◌++◌,
  reverse, arith, ltb, ◌==◌, if◌then◌else◌, length, replicate, All,
}
use cannelloni.Frame.{Frame, IsValid, canfd_len, has_fd_bit, frame_size, arbitration_id}
use cannelloni.FrameBuffer.{FrameBuffer}
use cannelloni.FrameBuffer.Count.{occurrences}
use cannelloni.FrameBuffer.Size.{total_size}
use cannelloni.FrameBuffer.Invariant.{IsSound}
use cannelloni.FrameBuffer.Flush.{IsTracked}
use cannelloni.Packet.Build.{header}
use cannelloni.Packet.Wire.{wires, Stops}
use cannelloni.Timer.{ItimerSpec, at_least_one, get_value}
use cannelloni.Timer.Laws.{ReadsBack, interval_of}
use cannelloni.CanThread.{CanThread, Sent, transmit_buffer, is_written}
use cannelloni.CanThread.Transmit.{Transmits, transmit_buffer_lem}
use cannelloni.UdpThread.{UdpThread, prepare_buffer, find, transmit_frame}
use cannelloni.UdpThread.Flush.{queue, prepare_buffer_lem}
use cannelloni.UdpThread.Keeps.{prepare_buffer-progress}
use cannelloni.UdpThread.Deadline.{transmit_frame-deadline}

abbrev pub gettime : ItimerSpec → ItimerSpec
gettime ts = ts

abbrev pub settime : ItimerSpec → ItimerSpec → ItimerSpec
settime ts fd = ts

pub reads_back : ReadsBack gettime settime
reads_back ts fd = refl

abbrev frame_at : ℕ → ℕ → Frame
frame_at addr id = record {
  addr = addr;
  can_id = id;
  len = 0x81;
  flags = 0;
  payload = replicate 64 0;
}

abbrev pub waiting : FrameBuffer
waiting = record {
  frame_pool = [];
  buffer = frame_at 0 9 ∷ frame_at 1 5 ∷ [];
  intermediate_buffer = [];
  total_alloc_count = 2;
  buffer_size = 14;
  intermediate_buffer_size = 0;
  max_alloc_count = 4;
  next_addr = 2;
}

abbrev pub off : ItimerSpec
off = record { interval_sec = 0; interval_nsec = 100000; value_sec = 0; value_nsec = 0 }

abbrev pub udp : UdpThread ItimerSpec
udp = record {
  frame_buffer = waiting;
  transmit_timer = off;
  block_timer = off;
  sort_frames = true;
  check_peer = true;
  remote_addr = 1;
  sequence_number = 255;
  timeout = 100;
  timeout_table = (7, 20) ∷ [];
  rx_count = 0;
  tx_count = 0;
  payload_size = 80;
}

abbrev can : CanThread ItimerSpec
can = record { frame_buffer = waiting; timer = off; canfd = true; rx_count = 0; tx_count = 0 }

-- The socket takes everything.
abbrev pub send : List ℕ → Option ℕ
send bytes = some (length bytes)

abbrev write : ℕ → Frame → ℕ → Option ℕ
write k f mtu = some mtu

-- The socket takes one frame of CAN FD and no more.
abbrev write_one : ℕ → Frame → ℕ → Option ℕ
write_one zero f mtu = some 72
write_one (suc k) f mtu = none

abbrev pub write_all : ℕ → Frame → ℕ → Option ℕ
write_all k f mtu = some 72

pub write_all-is_written : (k : ℕ) (f : Frame) (mtu : ℕ) → is_written (write_all k f mtu) ≡ true
unfolding is_written
write_all-is_written k f mtu = refl

pub waiting-IsValid : All IsValid waiting.buffer
unfolding canfd_len
waiting-IsValid = omega arith

transmit_buffer_lem_example :
    (s : Sent ItimerSpec) × (transmit_buffer gettime settime write_one can ≡ some s)
    × Transmits gettime settime write_one can s
transmit_buffer_lem_example = transmit_buffer_lem gettime settime write_one can

prepare_buffer_lem_example :
    (sent left : List Frame) × (bytes : List ℕ) × (t' : UdpThread ItimerSpec) × (prepare_buffer send
        udp
      ≡ some (bytes, t'))
    × (queue udp ≡ sent ++ left)
    × (bytes ≡ header 255 (length sent) ++ wires sent)
    × (length bytes ≤ 80)
    × Stops 80 (length bytes) left
    × (t'.frame_buffer.frame_pool ≡ [] ++ sent)
    × (t'.frame_buffer.buffer ≡ reverse left)
    × (t'.frame_buffer.intermediate_buffer ≡ [])
    × (t'.sequence_number ≡ (255 + 1) % 256)
prepare_buffer_lem_example =
    prepare_buffer_lem send udp waiting-IsValid refl (omega arith) (omega arith)

once_waiting :
    (a : ℕ)
    → 0 + (((if 0 == a then 1 else 0) + ((if 1 == a then 1 else 0) + 0)) + 0)
      ≡ (if ltb a 2 then 1 else 0)
once_waiting a = ground arith

waiting-IsSound : IsSound waiting []
unfolding occurrences total_size frame_size canfd_len has_fd_bit
waiting-IsSound = record {
  once = λ a. omega (arith, once_waiting a);
  sized = refl;
  counted = refl;
  bounded = λ p. omega arith;
  max_range = omega arith;
}

waiting-IsTracked : IsTracked waiting
unfolding IsTracked total_size
waiting-IsTracked = refl

-- What `prepare_buffer` gives for the two frames.
flushed : (r : List ℕ × UdpThread ItimerSpec) × (prepare_buffer send udp ≡ some r)
flushed =
    let (sent, left, bytes, t', e, q, b, l, s, p, o, i, n) = prepare_buffer_lem_example in
    ((bytes, t'), e)

unsorted : queue (record udp { sort_frames = false }) ≡ frame_at 0 9 ∷ frame_at 1 5 ∷ []
unfolding queue
unsorted = refl

prepare_buffer-progress_example :
    (sent left : List Frame) × (t' : UdpThread ItimerSpec) × (prepare_buffer send
        (record udp { sort_frames = false })
      ≡ some (header 255 (length sent) ++ wires sent, t'))
    × (frame_at 0 9 ∷ frame_at 1 5 ∷ [] ≡ sent ++ left)
    × (0 < length sent)
    × (t'.frame_buffer.buffer ≡ reverse left)
prepare_buffer-progress_example =
    prepare_buffer-progress send (record udp { sort_frames = false }) (frame_at 0 9)
      (frame_at 1 5 ∷ []) unsorted waiting-IsValid refl (omega arith) (omega arith)

found : find (arbitration_id 7) udp.timeout_table ≡ some 20
unfolding find arbitration_id
found = refl

transmit_frame-deadline_example :
    (0
      < get_value gettime settime
          (transmit_frame gettime settime (frame_at 2 7) udp).transmit_timer)
    × (get_value gettime settime (transmit_frame gettime settime (frame_at 2 7) udp).transmit_timer
        ≤ at_least_one 20)
unfolding interval_of
transmit_frame-deadline_example =
    transmit_frame-deadline gettime settime reads_back (frame_at 2 7) udp 20 (omega arith)
      (omega arith) (omega arith, tt) found (omega arith)
