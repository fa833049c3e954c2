-- ===== src/System/Sctp.antt =====
-- The two threads of a running program over SCTP, each the peer of the other: canthread.cpp and
-- sctpthread.cpp together. A step is a whole round of one of them, with any events: connections come and go,
-- and rounds do not overlap.
pub mod Reconnects
pub mod Start
use cannelloni.Prelude.{ℕ, ◌^◌, ◌<◌, ◌≡◌, Option, some, List, []}
use cannelloni.Frame.{Frame}
use cannelloni.FrameBuffer.Invariant.{IsSound}
use cannelloni.Timer.{ItimerSpec}
use cannelloni.CanThread.{CanThread}
use cannelloni.CanThread.Receive.{Received}
use cannelloni.CanThread.Rounds.{SocketStaysInPlace}
use cannelloni.CanThread.Rounds.{run_round as can_round, ready as can_ready, Served as CanServed}
use cannelloni.UdpThread.{UdpThread}
use cannelloni.UdpThread.Alarm.{WillSend}
use cannelloni.UdpThread.Rounds.{Sound}
use cannelloni.SctpThread.{SctpThread, ServerEvent, ClientEvent, Ready}
use cannelloni.SctpThread.{run_round as net_round, Served as NetServed}
use cannelloni.SctpThread.Connect.{sctp_thread, can_thread}
use cannelloni.SctpThread.Keeps.{ReadsIntoRoom}

pub record SctpSystem (Fd : Type 0) : Type 0 where
  pub can : CanThread Fd
  pub net : SctpThread Fd

module _ {Fd : Type 0} (gettime : Fd → ItimerSpec) (settime : ItimerSpec → Fd → Fd)
    (write : ℕ → Frame → ℕ → Option ℕ) (send : List ℕ → Option ℕ) where
  pub data Step : SctpSystem Fd → SctpSystem Fd → Type 0 where
    can_turn :
        {s : SctpSystem Fd} (timer : Option (Option ℕ)) (socket : Option Received)
        (r : CanServed Fd (SctpThread Fd))
        → SocketStaysInPlace socket
        → can_round gettime settime write
            (sctp_thread gettime settime)
            (can_ready timer socket)
            s.can
            s.net
          ≡ some r
        → Step s (record { can = r.thread; net = r.peer })
    net_turn :
        {s : SctpSystem Fd} (at_server : ServerEvent) (at_client : ClientEvent) (events : Ready)
        (r : NetServed Fd (CanThread Fd))
        → ReadsIntoRoom events
        → net_round gettime settime
            (can_thread gettime settime)
            send
            at_server
            at_client
            events
            s.net
            s.can
          ≡ some r
        → Step s (record { can = r.peer; net = r.thread })

  pub data Reach (s : SctpSystem Fd) : SctpSystem Fd → Type 0 where
    here : Reach s s
    next : {t u : SctpSystem Fd} → Reach s t → Step t u → Reach s u

-- The thread at the network: its buffer is sound but for `gone`, has frames and a limit below 2 ^ 55, and
-- if frames wait the transmit timer runs.
pub record IsAwake {Fd : Type 0} (gettime : Fd → ItimerSpec) (settime : ItimerSpec → Fd → Fd)
    (gone : List Frame) (t : UdpThread Fd) : Type 0 where
  pub sound : Sound gone t
  pub some_frames : 0 < t.frame_buffer.next_addr
  pub limited : 0 < t.frame_buffer.max_alloc_count
  pub small : t.frame_buffer.max_alloc_count < 2 ^ 55
  pub waits : WillSend gettime settime t

-- And the buffer at the CAN socket is sound.
abbrev pub BothAwake :
    {Fd : Type 0} → (Fd → ItimerSpec) → (ItimerSpec → Fd → Fd) → List Frame → SctpSystem Fd → Type 0
BothAwake gettime settime gone s =
    IsAwake gettime settime gone s.net.udp × IsSound s.can.frame_buffer []
