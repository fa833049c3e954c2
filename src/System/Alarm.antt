-- ===== src/System/Alarm.antt =====
-- The transmit timer of the thread over UDP, when the rounds of the two threads do not overlap.
use cannelloni.Prelude.{ℕ, ◌^◌, ◌<◌, ◌≡◌, ◌⊎◌, Option, List, [], ◌++◌, arith}
use cannelloni.Frame.{Frame}
use cannelloni.Timer.{ItimerSpec, get_value}
use cannelloni.Timer.Laws.{ReadsBack}
use cannelloni.UdpThread.{UdpThread}
use cannelloni.UdpThread.Alarm.{WillSend, IsPeriodic}
use cannelloni.UdpThread.AlarmRounds.{run_round-WillSend}
use cannelloni.UdpThread.OwnBuffer.{run_round-SameFrames}
use cannelloni.SctpThread.Connect.{udp_thread, can_thread}
use cannelloni.System.{System, Step, Reach, can_turn, net_turn, here, next}
use cannelloni.System.Borrowed.{can_round-LeavesNet}
use cannelloni.System.Wakes.{udp_thread-WillSend}
use cannelloni.CanThread.Peers.{run_round-Keeps}
use cannelloni.System.Invariant.{IsGood, Step-IsGood}

module _ {Fd : Type 0} (gettime : Fd → ItimerSpec) (settime : ItimerSpec → Fd → Fd)
    (law : ReadsBack gettime settime) where
  abbrev Waits : UdpThread Fd → Type 0
  Waits = WillSend gettime settime

  -- A good system, whose buffer at the network has a limit below 2 ^ 55, and in which the transmit timer
  -- runs if frames wait.
  abbrev pub IsAwake : List Frame → System Fd → Type 0
  IsAwake gone s = IsGood gone s × Waits s.net × (s.net.frame_buffer.max_alloc_count < 2 ^ 55)

  module _ (write : ℕ → Frame → ℕ → Option ℕ) (send : List ℕ → Option ℕ) where
    Step-limit :
        {s t : System Fd}
        → Step gettime settime write send s t
        → t.net.frame_buffer.max_alloc_count ≡ s.net.frame_buffer.max_alloc_count
    Step-limit {s} (can_turn timer socket r stays e) =
        (can_round-LeavesNet gettime settime write timer socket s.can s.net r e).2
    Step-limit {s} (net_turn timer socket r room e) =
        (run_round-SameFrames gettime settime (can_thread gettime settime) send timer socket s.net
          s.can r e).0

    Step-Waits :
        {gone : List Frame} {s t : System Fd}
        → IsAwake gone s
        → Step gettime settime write send s t
        → Waits t.net
    Step-Waits {gone} {s} (good, w, small) (can_turn timer socket r stays e) =
        run_round-Keeps (udp_thread gettime settime) Waits (udp_thread-WillSend gettime settime law)
          gettime settime write timer socket s.can s.net r w e
    Step-Waits {gone} {s} (((sound, tracked), own, some_frames, limited), w, small)
          (net_turn timer socket r room e) =
        run_round-WillSend gettime settime law (can_thread gettime settime) send timer socket s.net
          s.can gone r (sound, limited, small) w e

    Reach-IsAwake :
        {gone : List Frame} {s t : System Fd}
        → IsAwake gone s
        → Reach gettime settime write send s t
        → (more : List Frame) × IsAwake more t
    Reach-IsAwake {gone} awake here = (gone, awake)
    Reach-IsAwake awake (next r step) =
        let (before, then_awake) = Reach-IsAwake awake r in
        let (more, good, lost_now) = Step-IsGood gettime settime write send then_awake.0 step in
        (
          more ++ before,
          (good, Step-Waits then_awake step, omega (arith, Step-limit step, then_awake.2)),
        )

    -- In runs in which the rounds of the two threads do not overlap, from a good state in which the transmit
    -- timer runs if frames wait: if frames wait in the buffer at the network, the transmit timer runs,
    -- with an interval that is not zero. This is for a timer that gives back what was set, and for a
    -- buffer with a limit below 2 ^ 55.
    pub Reach-WillSend :
        (gone : List Frame) (s t : System Fd)
        → IsAwake gone s
        → Reach gettime settime write send s t
        → ((t.net.frame_buffer.buffer ≡ []) ⊎ (0 < get_value gettime settime t.net.transmit_timer))
          × IsPeriodic gettime settime t.net.transmit_timer
    Reach-WillSend gone s t awake r =
        let (more, then_awake) = Reach-IsAwake awake r in
        (then_awake.1.waits, then_awake.1.periodic)
