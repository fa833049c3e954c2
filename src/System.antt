-- ===== src/System.antt =====
-- The two threads of a running program, over UDP, each the peer of the other: canthread.cpp and
-- udpthread.cpp together. A step is a whole round of the loop of one of them, with any events: this is about
-- runs in which the rounds do not overlap. Interleaving has the single accesses.
pub mod Borrowed
pub mod Invariant
pub mod Wakes
pub mod Alarm
pub mod Sctp
pub mod Start
use cannelloni.Prelude.{ℕ, ◌≡◌, Option, some, List}
use cannelloni.Frame.{Frame}
use cannelloni.Timer.{ItimerSpec}
use cannelloni.CanThread.{CanThread}
use cannelloni.CanThread.Receive.{Received}
use cannelloni.CanThread.Rounds.{SocketStaysInPlace}
use cannelloni.CanThread.Rounds.{run_round as can_round, ready as can_ready, Served as CanServed}
use cannelloni.UdpThread.{UdpThread}
use cannelloni.UdpThread.Run.{Message, HasRoom}
use cannelloni.UdpThread.Run.{run_round as net_round, ready as net_ready, Served as NetServed}
use cannelloni.SctpThread.Connect.{udp_thread, can_thread}

pub record System (Fd : Type 0) : Type 0 where
  pub can : CanThread Fd
  pub net : UdpThread Fd

module _ {Fd : Type 0} (gettime : Fd → ItimerSpec) (settime : ItimerSpec → Fd → Fd)
    (write : ℕ → Frame → ℕ → Option ℕ) (send : List ℕ → Option ℕ) where
  pub data Step : System Fd → System Fd → Type 0 where
    can_turn :
        {s : System Fd} (timer : Option (Option ℕ)) (socket : Option Received)
        (r : CanServed Fd (UdpThread Fd))
        → SocketStaysInPlace socket
        → can_round gettime settime write
            (udp_thread gettime settime)
            (can_ready timer socket)
            s.can
            s.net
          ≡ some r
        → Step s (record { can = r.thread; net = r.peer })
    net_turn :
        {s : System Fd} (timer : Option (Option ℕ)) (socket : Option Message)
        (r : NetServed Fd (CanThread Fd))
        → HasRoom socket
        → net_round gettime settime
            (can_thread gettime settime)
            send
            (net_ready timer socket)
            s.net
            s.can
          ≡ some r
        → Step s (record { can = r.peer; net = r.thread })

  pub data Reach (s : System Fd) : System Fd → Type 0 where
    here : Reach s s
    next : {t u : System Fd} → Reach s t → Step t u → Reach s u
