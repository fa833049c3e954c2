-- ===== src/Tests/Peers.antt =====
-- Runs of the threads with their peers at concrete inputs.
use cannelloni.Prelude.{
  ℕ, ◌≡◌, refl, ◌⊎◌, true, false, none, some, List, [], ◌∷◌, ◌++◌, arith, replicate,
}
use cannelloni.Frame.{Frame, canfd_len, has_fd_bit, has_data}
use cannelloni.FrameBuffer.{FrameBuffer, request_frame, insert_frame, reset}
use cannelloni.FrameBuffer.Count.{occurrences}
use cannelloni.FrameBuffer.Size.{total_size}
use cannelloni.FrameBuffer.Invariant.{IsSound}
use cannelloni.Timer.{ItimerSpec}
use cannelloni.Connection.{request, IsLawful}
use cannelloni.CanThread.{CanThread}
use cannelloni.CanThread.{transmit_frame as can_transmit_frame}
use cannelloni.CanThread.Receive.{Received, bytes}
use cannelloni.Packet.Bytes.{of_be32, of_be16}
use cannelloni.Packet.Parse.{
  parse_frames, parse_body, parse_loop, parse_frame, allocate, receive, read_id, read_flags,
  read_data, copy_payload, byte_at, read_byte,
}
use cannelloni.UdpThread.{UdpThread}
use cannelloni.UdpThread.{init as udp_init}
use cannelloni.UdpThread.Receive.{
  parse_packet, finish, allocator, receiver, given, count_packet, parse_packet-IsSound,
}
use cannelloni.SctpThread.{SctpThread, server, accepted, wait_for_client, connect_client}
use cannelloni.SctpThread.{init as sctp_init}
use cannelloni.FrameBuffer.Flush.{IsTracked}
use cannelloni.SctpThread.{run_round, Served, connect_failed, wait_failed}
use cannelloni.SctpThread.Connect.{
  udp_thread, can_thread, sctp_thread, threads-IsLawful, wait_for_client_lem,
}

abbrev pub gettime : ItimerSpec → ItimerSpec
gettime ts = ts

abbrev pub settime : ItimerSpec → ItimerSpec → ItimerSpec
settime ts fd = ts

abbrev pub off : ItimerSpec
off = record { interval_sec = 0; interval_nsec = 100000; value_sec = 0; value_nsec = 0 }

abbrev pub free : Frame
free = record { addr = 0; can_id = 5; len = 1; flags = 0; payload = replicate 64 0 }

-- One frame, in the pool.
abbrev pub one_free : FrameBuffer
one_free = record {
  frame_pool = free ∷ [];
  buffer = [];
  intermediate_buffer = [];
  total_alloc_count = 1;
  buffer_size = 0;
  intermediate_buffer_size = 0;
  max_alloc_count = 1;
  next_addr = 1;
}

pub one_free-IsSound : IsSound one_free []
unfolding occurrences total_size
one_free-IsSound = record {
  once = λ a. ground arith;
  sized = refl;
  counted = refl;
  bounded = λ p. omega arith;
  max_range = omega arith;
}

abbrev pub can : CanThread ItimerSpec
can = record { frame_buffer = one_free; timer = off; canfd = true; rx_count = 0; tx_count = 0 }

abbrev pub udp : UdpThread ItimerSpec
udp = udp_init off off one_free 1 true true

-- Seven bytes are no frame.
abbrev pub cut : Received
cut = bytes 7 λ f. f

-- A packet with one frame of no data.
abbrev packet : List ℕ
packet = 2 ∷ 0 ∷ 9 ∷ 0 ∷ 1 ∷ 0 ∷ 0 ∷ 0 ∷ 7 ∷ 0 ∷ []

abbrev can_after : CanThread ItimerSpec
can_after =
    can_transmit_frame gettime settime (record free { can_id = 7; len = 0 })
      (record can { frame_buffer = record one_free { frame_pool = [] } })

parsed :
    parse_packet (can_thread gettime settime) true 1 10 (packet ++ (0 ∷ [])) udp can
    ≡ some (false, count_packet udp, can_after)
unfolding parse_packet finish allocator receiver given count_packet parse_frames parse_body
    parse_loop parse_frame allocate receive read_id read_byte read_flags read_data copy_payload
    of_be32 of_be16 canfd_len has_fd_bit has_data request request_frame can_thread byte_at udp_init
    can_transmit_frame insert_frame
parsed = refl

parse_packet-IsSound_example : IsSound can_after.frame_buffer []
unfolding can_thread
parse_packet-IsSound_example =
    parse_packet-IsSound (can_thread gettime settime) (threads-IsLawful gettime settime).1 [] true 1
      10 (packet ++ (0 ∷ [])) udp (count_packet udp) can can_after false one_free-IsSound
      (omega arith) parsed

threads-IsLawful_example :
    IsLawful (udp_thread gettime settime)
    × IsLawful (can_thread gettime settime)
    × IsLawful (sctp_thread gettime settime)
threads-IsLawful_example = threads-IsLawful gettime settime

abbrev pub waits : SctpThread ItimerSpec
waits = sctp_init off off one_free 3 false true server

accepts : (wait_for_client (accepted 3) waits).connected ≡ true
unfolding wait_for_client connect_client sctp_init udp_init
accepts = refl

disconnected : waits.connected ≡ false
unfolding sctp_init
disconnected = refl

wait_for_client_lem_example :
    ((waits.check_peer_connect ≡ false) ⊎ (accepted 3 ≡ accepted waits.udp.remote_addr))
    × ((wait_for_client (accepted 3) waits).udp.frame_buffer ≡ reset waits.udp.frame_buffer)
    × ((wait_for_client (accepted 3) waits).udp.frame_buffer.buffer ≡ [])
    × ((wait_for_client (accepted 3) waits).udp.frame_buffer.buffer_size ≡ 0)
wait_for_client_lem_example = wait_for_client_lem (accepted 3) waits disconnected accepts

pub one_free-Sound : IsSound one_free [] × IsTracked one_free
unfolding IsTracked total_size
one_free-Sound = (one_free-IsSound, refl)

-- A client connects to the server, which is idle otherwise.
abbrev pub at_accept : Served ItimerSpec (CanThread ItimerSpec)
at_accept = record { sent = []; thread = wait_for_client (accepted 3) waits; peer = can }

pub round_at_accept :
    run_round gettime settime
      (can_thread gettime settime)
      (λ _. none)
      (accepted 3)
      connect_failed
      (wait_failed false)
      waits
      can
    ≡ some at_accept
unfolding run_round sctp_init udp_init
round_at_accept = refl
