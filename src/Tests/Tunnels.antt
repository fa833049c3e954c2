-- ===== src/Tests/Tunnels.antt =====
-- A packet from one side to the CAN socket of the other, at concrete inputs.
use cannelloni.Prelude.{
  ℕ, ◌≡◌, refl, true, false, some, List, [], ◌∷◌, ◌++◌, reverse, arith, length, replicate,
}
use cannelloni.Frame.{Frame}
use cannelloni.FrameBuffer.{FrameBuffer}
use cannelloni.FrameBuffer.Everywhere.{Everywhere}
use cannelloni.Packet.Wire.{Stops, wires}
use cannelloni.Timer.{ItimerSpec}
use cannelloni.CanThread.{CanThread, Sent, transmit_buffer}
use cannelloni.CanThread.Calls.{calls}
use cannelloni.UdpThread.{UdpThread, prepare_buffer}
use cannelloni.UdpThread.Flush.{queue}
use cannelloni.UdpThread.Receive.{parse_packet, count_packet}
use cannelloni.UdpThread.Deliver.{IsWhole, fills}
use cannelloni.SctpThread.Connect.{can_thread}
use cannelloni.Tunnel.{tunnel}
use cannelloni.Tests.Threads.{
  gettime, settime, off, udp, send, write_all, waiting-IsValid, write_all-is_written,
}

abbrev blank : ℕ → Frame
blank addr = record { addr = addr; can_id = 0; len = 0; flags = 0; payload = replicate 64 0 }

-- A pool of two frames.
abbrev two_free : FrameBuffer
two_free = record {
  frame_pool = blank 0 ∷ blank 1 ∷ [];
  buffer = [];
  intermediate_buffer = [];
  total_alloc_count = 2;
  buffer_size = 0;
  intermediate_buffer_size = 0;
  max_alloc_count = 4;
  next_addr = 2;
}

abbrev can : CanThread ItimerSpec
can = record { frame_buffer = two_free; timer = off; canfd = true; rx_count = 0; tx_count = 0 }

two_free-IsWhole : Everywhere IsWhole two_free
two_free-IsWhole = record { in_pool = (refl, (refl, tt)); in_buffer = tt; in_intermediate = tt }

tunnel_example :
    (sent left : List Frame) × (bytes : List ℕ) × (near' : UdpThread ItimerSpec) × (can' : CanThread
      ItimerSpec)
    × (s : Sent ItimerSpec) × (queue udp ≡ sent ++ left)
    × (prepare_buffer send udp ≡ some (bytes, near'))
    × Stops 80 (length bytes) left
    × (near'.frame_buffer.buffer ≡ reverse left)
    × (parse_packet (can_thread gettime settime) true 1 (length bytes) (bytes ++ (0 ∷ [])) udp can
        ≡ some (false, count_packet udp, can'))
    × (transmit_buffer gettime settime write_all can' ≡ some s)
    × (s.frames ≡ calls true ([] ++ fills sent (blank 0 ∷ blank 1 ∷ [])))
    × (wires (fills sent (blank 0 ∷ blank 1 ∷ [])) ≡ wires sent)
tunnel_example =
    tunnel gettime settime send write_all udp udp can (0 ∷ []) waiting-IsValid refl (omega arith)
      (omega arith) (omega arith) two_free-IsWhole write_all-is_written
