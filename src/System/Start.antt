-- ===== src/System/Start.antt =====
-- From the command line of cannelloni.cpp to the loops of the two threads.
use cannelloni.Prelude.{ℕ, ◌^◌, ◌<◌, ◌≡◌, Bool, Option, some, List, [], arith}
use cannelloni.Timer.{ItimerSpec, get_value}
use cannelloni.Timer.Laws.{ReadsBack}
use cannelloni.CanThread.Start.{arm as can_arm}
use cannelloni.UdpThread.Run.{arm as net_arm}
use cannelloni.UdpThread.Alarm.{arm-WillSend, arm-runs}
use cannelloni.Main.{Config, goes_on, parse_options}
use cannelloni.Main.Setup.{load_table, set_up}
use cannelloni.Main.Ready.{IsConfigured, udp_part, set_up-IsFresh}
use cannelloni.System.{System}
use cannelloni.System.Alarm.{IsAwake}

-- The two threads that main has set up, when they come to their loops; of a thread over SCTP, the part
-- that it has from UDPThread.
unfoldable pub at_loops :
    {Fd : Type 0} (gettime : Fd → ItimerSpec) (settime : ItimerSpec → Fd → Fd)
    (transmit_timer block_timer can_timer : Fd) (table : List (ℕ × ℕ)) (addr : ℕ) (c : Config)
    → System Fd
at_loops gettime settime transmit_timer block_timer can_timer table addr c = record {
  can = can_arm gettime settime (set_up transmit_timer block_timer can_timer table addr c).1;
  net =
      net_arm gettime settime
        (udp_part (set_up transmit_timer block_timer can_timer table addr c).0);
}

-- Whatever the command line and the file of timeouts: if main comes to start the threads and these come
-- to their loops, both frame buffers are sound, no frame is lost, the buffer at the network has frames
-- and a limit below 2 ^ 55, and the transmit timer runs, with an interval that is not zero. The timeouts
-- of the thread at the network fit 32 bits, the general one is not zero, and a packet has room for a
-- frame of any size. This is for a timer that gives back what was set, and for values of the file that
-- fit 32 bits.
pub set_up-IsAwake :
    {Fd : Type 0} (gettime : Fd → ItimerSpec) (settime : ItimerSpec → Fd → Fd)
    (law : ReadsBack gettime settime) (sctp_support : Bool) (strtoul : List ℕ → ℕ)
    (read_key read_value : List ℕ → Option ℕ) (open_file : List ℕ → Option (List (List ℕ)))
    (transmit_timer block_timer can_timer : Fd) (os : List (ℕ × List ℕ)) (c : Config)
    (table : List (ℕ × ℕ)) (addr : ℕ)
    → ((text : List ℕ) (v : ℕ) → read_value text ≡ some v → v < 2 ^ 32)
    → parse_options sctp_support strtoul os ≡ goes_on c
    → load_table read_key read_value open_file c ≡ goes_on table
    → IsAwake gettime settime law []
        (at_loops gettime settime transmit_timer block_timer can_timer table addr c)
      × (0
          < get_value gettime settime
              (at_loops gettime settime transmit_timer block_timer can_timer table addr
                c).net.transmit_timer)
      × IsConfigured
          (at_loops gettime settime transmit_timer block_timer can_timer table addr c).net
unfolding at_loops net_arm can_arm
set_up-IsAwake gettime settime law sctp_support strtoul read_key read_value open_file transmit_timer
      block_timer can_timer os c table addr narrow parsed loaded =
    let (good, fresh, can_fresh) =
      set_up-IsFresh sctp_support strtoul read_key read_value open_file transmit_timer block_timer
        can_timer os c table addr narrow parsed loaded in
    let net = udp_part (set_up transmit_timer block_timer can_timer table addr c).0 in
    (
      (
        ((fresh.sound, fresh.tracked), can_fresh.sound, fresh.has_frames, fresh.bounded),
        unfold net_arm in arm-WillSend gettime settime law net good.narrow good.table,
        omega (arith, fresh.small),
      ),
      unfold net_arm in arm-runs gettime settime law net good.narrow,
      record {
        positive = good.positive;
        narrow = good.narrow;
        table = good.table;
        room = good.room;
        size = good.size;
      },
    )
