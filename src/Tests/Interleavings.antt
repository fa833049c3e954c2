-- ===== src/Tests/Interleavings.antt =====
-- Interleavings of the threads, at concrete inputs.
use cannelloni.Prelude.{
  ℕ, ◌≡◌, refl, ◌≢◌, true, Option, none, some, List, [], ◌∷◌, ◌++◌, arith, length,
}
use cannelloni.Frame.{canfd_len, has_fd_bit, has_data, frame_size}
use cannelloni.FrameBuffer.{
  FrameBuffer, request_frame, get_frame_buffer_size, swap_buffers, sort_intermediate_buffer, sort,
  insert_sorted, merge_intermediate_buffer,
}
use cannelloni.FrameBuffer.Invariant.{IsSound}
use cannelloni.Packet.Build.{build_packet, load_frames, frame_bytes, payload_bytes, header}
use cannelloni.Packet.Bytes.{be32, be16}
use cannelloni.Thread.{
  new_thread, no_thread, start_sets_started, start_creates, start_sets_running, stops, joins,
  run_returns, resets_running, resets_started,
}
use cannelloni.Thread.{at_end as thread_ends}
use cannelloni.Timer.{ItimerSpec, get_value, read}
use cannelloni.UdpThread.{
  UdpThread, on_transmit_timer, prepare_buffer, take_over, send_packet, count_sent, handle_overflow,
}
use cannelloni.UdpThread.{init as udp_init}
use cannelloni.Interleaving.{here, outside, waiting, Threads, Reach, next, requests, loses, holds}
use cannelloni.Interleaving.Ownership.{Owned, held}
use cannelloni.Interleaving.Safety.{Reach-IsSound, lost_on_the_way}
use cannelloni.Interleaving.Rounds.{on_transmit_timer-Reach}
use cannelloni.Interleaving.LostWakeup.{lost_wakeup}
use cannelloni.Main.Life.{
  at_start, signal, calls_net, calls_can, net_runs, can_start_fails, clears, net_call, can_call,
  ends_wait,
}
use cannelloni.Main.Life.{Reach as Leads, here as stays, next as goes_on}
use cannelloni.Main.Shutdown.{Reach-IsOver, IsOver}
use cannelloni.Tests.Peers.{gettime, settime, free, one_free, one_free-IsSound, one_free-Sound, udp}

abbrev all : List ℕ → Option ℕ
all bytes = some (length bytes)

-- Nothing waits, and the timer has expired.
abbrev idle : Threads ItimerSpec
idle = record { net = udp; can_at = outside; net_at = waiting }

abbrev taken_over : FrameBuffer
taken_over = record one_free { frame_pool = [] }

requested : request_frame true one_free ≡ some (some free, taken_over)
unfolding request_frame
requested = refl

lost_wakeup_example :
    (u : UdpThread ItimerSpec) × Reach gettime settime all idle
      (record { net = u; can_at = outside; net_at = waiting })
    × (u.frame_buffer.buffer ≡ taken_over.buffer ++ (free ∷ []))
    × (get_value gettime settime u.transmit_timer ≡ 0)
unfolding get_frame_buffer_size read udp_init
lost_wakeup_example =
    lost_wakeup gettime settime all udp (some 1) free free taken_over (λ ts fd. refl) (ground arith)
      refl requested refl

-- One frame waits, and the timer runs.
abbrev has_frame : FrameBuffer
has_frame = record taken_over { buffer = free ∷ []; buffer_size = 6 }

abbrev waits_one : UdpThread ItimerSpec
waits_one = record udp { frame_buffer = has_frame }

abbrev sent_one : UdpThread ItimerSpec
sent_one = record waits_one { frame_buffer = one_free; sequence_number = 1; tx_count = 1 }

abbrev bytes_of_one : List ℕ
bytes_of_one = 2 ∷ 0 ∷ 0 ∷ 0 ∷ 1 ∷ 0 ∷ 0 ∷ 0 ∷ 5 ∷ 1 ∷ 0 ∷ []

expires :
    on_transmit_timer gettime settime all (read (some 1)) waits_one
    ≡ some (bytes_of_one ∷ [], sent_one)
unfolding on_transmit_timer get_frame_buffer_size read prepare_buffer take_over send_packet
    count_sent build_packet load_frames frame_bytes payload_bytes header be32 be16 canfd_len
    has_fd_bit has_data frame_size swap_buffers sort_intermediate_buffer sort insert_sorted
    handle_overflow merge_intermediate_buffer udp_init
expires = refl

on_transmit_timer-Reach_example :
    Reach gettime settime all (record idle { net = waits_one }) (record idle { net = sent_one })
on_transmit_timer-Reach_example =
    on_transmit_timer-Reach gettime settime all waits_one sent_one outside (some 1)
      (bytes_of_one ∷ []) expires

idle-Owned : Owned [] idle
unfolding udp_init
idle-Owned = record {
  sound = one_free-IsSound;
  tracks = one_free-Sound.1;
  some_frames = omega arith;
  limited = omega arith;
}

abbrev depleted : Threads ItimerSpec
depleted = record idle { net = record udp { frame_buffer = taken_over } }

-- The thread at the CAN socket gets the only frame, and recv(2) gives seven bytes.
loses_one : Reach gettime settime all idle depleted
unfolding holds udp_init
loses_one =
    next (next here (requests (some free) taken_over refl requested)) (loses 7 free refl refl)

Reach-IsSound_example :
    IsSound taken_over (held outside ++ (lost_on_the_way gettime settime all loses_one ++ []))
    × (request_frame true taken_over ≢ none)
Reach-IsSound_example = Reach-IsSound gettime settime all [] idle depleted idle-Owned loses_one

-- The thread at the network runs, that at the CAN socket could not start; then SIGTERM comes.
stopped : Leads at_start (record { net = new_thread; can = new_thread; at = clears })
unfolding net_call can_call ends_wait
stopped =
    let started =
      goes_on
        (goes_on (goes_on stays (calls_net (start_sets_started refl) refl))
          (calls_net (start_creates refl refl) refl))
        (calls_net (start_sets_running refl) refl) in
    let signalled = goes_on (goes_on started (can_start_fails refl)) (signal (some 15) refl) in
    let stops_net = goes_on signalled (calls_net (stops refl) refl) in
    let ended =
      goes_on
        (goes_on (goes_on stops_net (net_runs (run_returns refl) refl))
          (net_runs (resets_running refl) refl))
        (net_runs (resets_started refl) refl) in
    goes_on
      (goes_on (goes_on ended (calls_net (joins refl thread_ends) refl))
        (calls_can (stops refl) refl))
      (calls_can (joins refl no_thread) refl)

Reach-IsOver_example : IsOver new_thread × IsOver new_thread
Reach-IsOver_example =
    Reach-IsOver (record { net = new_thread; can = new_thread; at = clears }) stopped refl
