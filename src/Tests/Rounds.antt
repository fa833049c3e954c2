-- ===== src/Tests/Rounds.antt =====
-- Rounds of the two threads at concrete inputs.
use cannelloni.Prelude.{ℕ, ◌≡◌, refl, inl, true, Option, none, some, List, [], ◌++◌, arith}
use mathlib.Core.Option
use cannelloni.Frame.{Frame}
use cannelloni.FrameBuffer.{request_frame, get_frame_buffer_size}
use cannelloni.FrameBuffer.Invariant.{IsSound}
use cannelloni.FrameBuffer.Flush.{IsTracked}
use cannelloni.Timer.{ItimerSpec, read, disable}
use cannelloni.Timer.Laws.{ReadsBack, interval_of}
use cannelloni.Connection.{request}
use cannelloni.CanThread.{CanThread}
use cannelloni.CanThread.Receive.{
  bytes, mark_fd, count_received, receive_frame, receive_into, after_recv,
}
use cannelloni.CanThread.Rounds.{Loses, run_round-IsSound, serve_timer, serve_socket}
use cannelloni.CanThread.Rounds.{run_round as can_round, ready as can_ready, Served as CanServed}
use cannelloni.UdpThread.{UdpThread, on_transmit_timer, transmit_frame}
use cannelloni.UdpThread.{init as udp_init}
use cannelloni.UdpThread.Run.{zero_bytes}
use cannelloni.UdpThread.Run.{
  run_round as net_round, ready as net_ready, Served as NetServed, serve_timer as net_timer,
  serve_socket as net_socket,
}
use cannelloni.UdpThread.Rounds.{run_round-BothSound}
use cannelloni.SctpThread.Connect.{udp_thread, can_thread, threads-IsLawful}
use cannelloni.System.{System, Reach, can_turn, net_turn, here, next}
use cannelloni.System.Invariant.{IsGood, LostOnTheWay, Reach-IsGood}
use cannelloni.System.Alarm.{IsAwake}
use cannelloni.Tests.Peers.{
  gettime, settime, off, free, one_free, one_free-IsSound, one_free-Sound, can, udp, cut,
}

abbrev write : ℕ → Frame → ℕ → Option ℕ
write k f mtu = none

abbrev send : List ℕ → Option ℕ
send packet = none

run_round-IsSound_example :
    (s : CanServed ItimerSpec (UdpThread ItimerSpec)) × (gone : List Frame) × (can_round gettime
        settime write
        (udp_thread gettime settime)
        (can_ready none (some cut))
        can
        udp
      ≡ some s)
    × IsSound s.thread.frame_buffer []
    × IsSound ((udp_thread gettime settime).get_frame_buffer s.peer) (gone ++ [])
    × Loses (some cut) gone
unfolding udp_thread udp_init
run_round-IsSound_example =
    run_round-IsSound gettime settime write (udp_thread gettime settime)
      (threads-IsLawful gettime settime).0 [] [] none (some cut) can udp (λ f. refl)
      one_free-IsSound (one_free-IsSound, omega arith, omega arith)

-- The transmit timer has expired with no frame waiting, and the socket has a packet of no bytes.
abbrev after_quiet : NetServed ItimerSpec (CanThread ItimerSpec)
after_quiet = record {
  goes_on = true;
  sent = [];
  thread = record udp { transmit_timer = disable gettime settime off };
  peer = can;
}

quiet_round :
    net_round gettime settime
      (can_thread gettime settime)
      send
      (net_ready (some (some 1)) (some zero_bytes))
      udp
      can
    ≡ some after_quiet
unfolding net_round net_timer net_socket on_transmit_timer udp_init get_frame_buffer_size read
    Option.bind
quiet_round = refl

run_round-BothSound_example :
    (IsSound one_free [] × IsTracked one_free)
    × IsSound ((can_thread gettime settime).get_frame_buffer after_quiet.peer) []
unfolding udp_init can_thread
run_round-BothSound_example =
    run_round-BothSound gettime settime (can_thread gettime settime)
      (threads-IsLawful gettime settime).1 [] [] send (some (some 1)) (some zero_bytes) udp can
      after_quiet tt (one_free-Sound, one_free-IsSound) quiet_round

-- Both threads at their start, and after a round of each.
abbrev at_start : System ItimerSpec
at_start = record { can = can; net = udp }

at_start-IsGood : IsGood [] at_start
unfolding udp_init
at_start-IsGood = (one_free-Sound, one_free-IsSound, omega arith, omega arith)

abbrev after_round : CanServed ItimerSpec (UdpThread ItimerSpec)
after_round = record {
  goes_on = true;
  written = [];
  thread = can;
  peer = record udp {
    transmit_timer = disable gettime settime off;
    frame_buffer = record one_free { frame_pool = [] };
  };
}

cut_round :
    can_round gettime settime write
      (udp_thread gettime settime)
      (can_ready none (some cut))
      can
      after_quiet.thread
    ≡ some after_round
unfolding can_round serve_timer serve_socket receive_frame receive_into after_recv request
    request_frame udp_thread udp_init Option.bind
cut_round = refl

abbrev at_end : System ItimerSpec
at_end = record { can = can; net = after_round.peer }

rounds : Reach gettime settime write send at_start at_end
rounds =
    next (next here (net_turn (some (some 1)) (some zero_bytes) after_quiet tt quiet_round))
      (can_turn none (some cut) after_round (λ f. refl) cut_round)

Reach-IsGood_example :
    (more : List Frame) × (r : CanServed ItimerSpec (UdpThread ItimerSpec)) × IsGood
      (more ++ [])
      at_end
    × LostOnTheWay gettime settime write send rounds more
    × (can_round gettime settime write
          (udp_thread gettime settime)
          (can_ready none (some cut))
          at_end.can
          at_end.net
        ≡ some r)
Reach-IsGood_example =
    Reach-IsGood gettime settime write send [] at_start at_end none (some cut) (λ f. refl)
      at_start-IsGood rounds

reads_back : ReadsBack gettime settime
reads_back ts fd = refl

at_start-IsAwake : IsAwake gettime settime reads_back [] at_start
unfolding interval_of udp_init
at_start-IsAwake = (
  at_start-IsGood,
  record {
    waits = inl refl;
    periodic = (omega arith, omega arith);
    timeout_range = omega arith;
    table = tt;
  },
  omega arith,
)

-- A frame comes from the CAN socket, and waits for the transmit timer.
abbrev arrival : CanServed ItimerSpec (UdpThread ItimerSpec)
arrival = record {
  goes_on = true;
  written = [];
  thread = record can { rx_count = 1 };
  peer =
      transmit_frame gettime settime (mark_fd 16 free)
        (record udp { frame_buffer = record one_free { frame_pool = [] } });
}

arrival_round :
    can_round gettime settime write
      (udp_thread gettime settime)
      (can_ready none (some (bytes 16 λ f. f)))
      can
      udp
    ≡ some arrival
unfolding can_round serve_timer serve_socket receive_frame receive_into after_recv count_received
    request request_frame udp_thread udp_init Option.bind
arrival_round = refl

abbrev at_arrival : System ItimerSpec
at_arrival = record { can = arrival.thread; net = arrival.peer }

arrives : Reach gettime settime write send at_start at_arrival
arrives = next here (can_turn none (some (bytes 16 λ f. f)) arrival (λ f. refl) arrival_round)
