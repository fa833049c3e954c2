-- ===== src/System/Sctp/Reconnects.antt =====
-- What stays true of the two threads of a program over SCTP, in any order of their rounds, while
-- connections come and go (canthread.cpp and sctpthread.cpp).
use cannelloni.Prelude.{
  ℕ, ◌≡◌, refl, sym, ap, subst, Option, some, List, [], ◌++◌, append_assoc, arith,
}
use cannelloni.Frame.{Frame}
use cannelloni.FrameBuffer.{FrameBuffer, reset}
use cannelloni.FrameBuffer.Invariant.{IsSound}
use cannelloni.FrameBuffer.Flush.{IsTracked}
use cannelloni.FrameBuffer.Untouched.{SameFrames}
use cannelloni.Timer.{ItimerSpec}
use cannelloni.Timer.Laws.{ReadsBack}
use cannelloni.CanThread.{CanThread}
use cannelloni.CanThread.Receive.{Received}
use cannelloni.CanThread.Rounds.{Loses, SocketStaysInPlace, run_round-IsSound}
use cannelloni.CanThread.Rounds.{run_round as can_round, ready as can_ready, Served as CanServed}
use cannelloni.CanThread.Peers.{run_round-Keeps}
use cannelloni.UdpThread.{UdpThread}
use cannelloni.UdpThread.Alarm.{WillSend}
use cannelloni.UdpThread.AlarmRounds.{on_transmit_timer-WillSend, parse_packet-WillSend}
use cannelloni.UdpThread.OwnBuffer.{on_transmit_timer-SameFrames}
use cannelloni.UdpThread.Receive.{parse_packet-frame_buffer}
use cannelloni.UdpThread.Rounds.{Sound}
use cannelloni.SctpThread.{SctpThread}
use cannelloni.SctpThread.Connect.{sctp_thread, can_thread, threads-IsLawful}
use cannelloni.SctpThread.Keeps.{Keeps}
use cannelloni.SctpThread.Keeps.{run_round-Keeps as net_round-Keeps}
use cannelloni.SctpThread.Rounds.{BothSound-Keeps}
use cannelloni.System.Borrowed.{can_round-LeavesSctp}
use cannelloni.System.Wakes.{shrink-WillSend, sctp_thread-WillSend}
use cannelloni.System.Sctp.{
  SctpSystem, Step, Reach, can_turn, net_turn, here, next, IsAwake, BothAwake,
}

module _ {Fd : Type 0} (gettime : Fd → ItimerSpec) (settime : ItimerSpec → Fd → Fd)
    (law : ReadsBack gettime settime) (write : ℕ → Frame → ℕ → Option ℕ)
    (send : List ℕ → Option ℕ) where
  abbrev BothKept : List Frame → UdpThread Fd → CanThread Fd → Type 0
  BothKept gone t p = IsAwake gettime settime gone t × IsSound p.frame_buffer []

  -- The frames that there are and the limit do not change.
  IsAwake-SameFrames :
      (gone : List Frame) (t t' : UdpThread Fd)
      → IsAwake gettime settime gone t
      → SameFrames t.frame_buffer t'.frame_buffer
      → Sound gone t'
      → WillSend gettime settime t'
      → IsAwake gettime settime gone t'
  IsAwake-SameFrames gone t t' a (max, frames) sound waits = record {
    sound = sound;
    some_frames = omega (arith, frames, a.some_frames);
    limited = omega (arith, max, a.limited);
    small = omega (arith, max, a.small);
    waits = waits;
  }

  reset-SameFrames : (b : FrameBuffer) → SameFrames b (reset b)
  unfolding reset
  reset-SameFrames b = (refl, refl)

  reset-WillSend :
      (t : UdpThread Fd)
      → WillSend gettime settime t
      → WillSend gettime settime (record t { frame_buffer = reset t.frame_buffer })
  unfolding reset
  reset-WillSend t w = shrink-WillSend gettime settime law t (reset t.frame_buffer) w (λ e. refl)

  net_round-BothKept :
      (gone : List Frame) → Keeps gettime settime send (can_thread gettime settime) (BothKept gone)
  unfolding can_thread
  net_round-BothKept gone =
      let peer = can_thread gettime settime in
      let kept =
        BothSound-Keeps gettime settime peer (threads-IsLawful gettime settime).1 gone [] send in
      record {
        timed = λ n t t' p packets (a, w) e.
            let (sound, own) = kept.timed n t t' p packets (a.sound, w) e in
            (
              IsAwake-SameFrames gone t t' a
                  (on_transmit_timer-SameFrames gettime settime send n t t' packets e) sound
                  (on_transmit_timer-WillSend gettime settime law send n t t' gone packets
                    (a.sound.0, a.limited, a.small) a.waits e),
              own,
            );
        parsed = λ convertible addr len bytes t t' p p' caught room (a, w) e.
            let (sound, own) =
              kept.parsed convertible addr len bytes t t' p p' caught room (a.sound, w) e in
            let same : t'.frame_buffer ≡ t.frame_buffer =
              parse_packet-frame_buffer peer convertible addr len bytes t t' p p' caught e in
            (
              IsAwake-SameFrames gone t t' a
                  (
                    ap (λ (b : FrameBuffer). b.max_alloc_count) same,
                    ap (λ (b : FrameBuffer). b.next_addr) same,
                  )
                  sound
                  (parse_packet-WillSend gettime settime law peer convertible addr len bytes t t' p
                    p' caught a.waits e),
              own,
            );
        cleared = λ t p (a, w).
            let (sound, own) = kept.cleared t p (a.sound, w) in
            let t' = record t { frame_buffer = reset t.frame_buffer } in
            (
              IsAwake-SameFrames gone t t' a (reset-SameFrames t.frame_buffer) sound
                  (reset-WillSend t a.waits),
              own,
            );
      }

  -- The frames that are lost in a step, and in a run: at most one in each round in which recv(2) gave an
  -- incomplete frame, and none otherwise.
  abbrev pub Lost :
      {s t : SctpSystem Fd} → Step gettime settime write send s t → List Frame → Type 0
  Lost (can_turn timer socket r stays e) now = Loses socket now
  Lost (net_turn at_server at_client events r room e) now = now ≡ []

  abbrev pub LostOnTheWay :
      {s t : SctpSystem Fd} → Reach gettime settime write send s t → List Frame → Type 0
  LostOnTheWay here more = more ≡ []
  LostOnTheWay (next r step) more =
      (now before : List Frame) × (more ≡ now ++ before) × Lost step now × LostOnTheWay r before

  can_turn-BothAwake :
      (gone : List Frame) (s : SctpSystem Fd) (timer : Option (Option ℕ)) (socket : Option Received)
      (r : CanServed Fd (SctpThread Fd))
      → SocketStaysInPlace socket
      → BothAwake gettime settime gone s
      → can_round gettime settime write
          (sctp_thread gettime settime)
          (can_ready timer socket)
          s.can
          s.net
        ≡ some r
      → (more : List Frame) × BothAwake gettime settime
          (more ++ gone)
          (record { can = r.thread; net = r.peer })
        × Loses socket more
  unfolding sctp_thread IsTracked
  can_turn-BothAwake gone s timer socket r stays (a, own) e =
      let peer = sctp_thread gettime settime in
      let (r', more, done, own', sound', why) =
        run_round-IsSound gettime settime write peer (threads-IsLawful gettime settime).2 [] gone
          timer socket s.can s.net stays own (a.sound.0, a.some_frames, a.limited) in
      let same : r' ≡ r = cc in
      let (intermediate, size, max, frames) =
        can_round-LeavesSctp gettime settime write timer socket s.can s.net r e in
      (
        more,
        (
          record {
            sound = (
              subst
                  (λ (x : CanServed Fd (SctpThread Fd)).
                    IsSound x.peer.udp.frame_buffer (more ++ gone))
                  same sound',
              rw (size, intermediate) a.sound.1,
            );
            some_frames = omega (arith, frames, a.some_frames);
            limited = omega (arith, max, a.limited);
            small = omega (arith, max, a.small);
            waits =
                run_round-Keeps peer (λ (t : SctpThread Fd). WillSend gettime settime t.udp)
                  (sctp_thread-WillSend gettime settime law) gettime settime write timer socket
                  s.can s.net r a.waits e;
          },
          subst (λ (x : CanServed Fd (SctpThread Fd)). IsSound x.thread.frame_buffer []) same own',
        ),
        why,
      )

  Step-BothAwake :
      {gone : List Frame} {s t : SctpSystem Fd}
      → BothAwake gettime settime gone s
      → (step : Step gettime settime write send s t)
      → (now : List Frame) × BothAwake gettime settime (now ++ gone) t × Lost step now
  Step-BothAwake {gone} {s} a (can_turn timer socket r stays e) =
      can_turn-BothAwake gone s timer socket r stays a e
  Step-BothAwake {gone} {s} a (net_turn at_server at_client events r room e) = (
    [],
    net_round-Keeps gettime settime send (can_thread gettime settime) (BothKept gone)
        (net_round-BothKept gone) at_server at_client events s.net s.can r room a e,
    refl,
  )

  Reach-LostOnTheWay :
      {gone : List Frame} {s t : SctpSystem Fd}
      → BothAwake gettime settime gone s
      → (r : Reach gettime settime write send s t)
      → (more : List Frame) × BothAwake gettime settime (more ++ gone) t × LostOnTheWay r more
  Reach-LostOnTheWay a here = ([], a, refl)
  Reach-LostOnTheWay {gone} {s} {t} a (next r step) =
      let (before, then_awake, lost_then) = Reach-LostOnTheWay a r in
      let (now, now_awake, lost_now) = Step-BothAwake then_awake step in
      (
        now ++ before,
        subst (λ (fs : List Frame). BothAwake gettime settime fs t)
            (sym (append_assoc now before gone)) now_awake,
        (now, before, refl, lost_now, lost_then),
      )

  -- Over SCTP, in runs in which the rounds of the two threads do not overlap, in any order and with any
  -- events, while connections end and new ones begin, from a good state: both frame buffers are sound,
  -- but for the frames of `gone` and, for each round in which recv(2) gave an incomplete frame, at most
  -- the one that it was to be read into; and the next round at the CAN socket does not fault. This is
  -- for a timer that gives back what was set, and for a buffer with a limit below 2 ^ 55.
  pub Reach-BothAwake :
      (gone : List Frame) (s t : SctpSystem Fd) (timer : Option (Option ℕ))
      (socket : Option Received)
      → SocketStaysInPlace socket
      → BothAwake gettime settime gone s
      → (way : Reach gettime settime write send s t)
      → (more : List Frame) × (r : CanServed Fd (SctpThread Fd)) × Sound (more ++ gone) t.net.udp
        × IsSound t.can.frame_buffer []
        × LostOnTheWay way more
        × (can_round gettime settime write
              (sctp_thread gettime settime)
              (can_ready timer socket)
              t.can
              t.net
            ≡ some r)
  unfolding sctp_thread
  Reach-BothAwake gone s t timer socket stays awake way =
      let (more, (a, own), lost_frames) = Reach-LostOnTheWay awake way in
      let (round, lost, done, own_then, sound_then, why) =
        run_round-IsSound gettime settime write (sctp_thread gettime settime)
          (threads-IsLawful gettime settime).2 [] (more ++ gone) timer socket t.can t.net stays own
          (a.sound.0, a.some_frames, a.limited) in
      (more, round, a.sound, own, lost_frames, done)
