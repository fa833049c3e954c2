-- ===== src/System/Invariant.antt =====
-- What stays true of the two threads of a running program, in any order of their rounds.
use cannelloni.Prelude.{
  ℕ, ◌<◌, ◌≡◌, refl, sym, subst, Option, some, List, [], ◌++◌, append_assoc, arith,
}
use cannelloni.Frame.{Frame}
use cannelloni.FrameBuffer.Invariant.{IsSound}
use cannelloni.FrameBuffer.Flush.{IsTracked}
use cannelloni.Timer.{ItimerSpec}
use cannelloni.CanThread.{CanThread}
use cannelloni.CanThread.Receive.{Received}
use cannelloni.CanThread.Rounds.{Loses, SocketStaysInPlace, run_round-IsSound}
use cannelloni.CanThread.Rounds.{run_round as can_round, ready as can_ready, Served as CanServed}
use cannelloni.UdpThread.{UdpThread}
use cannelloni.UdpThread.Run.{Message, HasRoom}
use cannelloni.UdpThread.Run.{run_round as net_round, ready as net_ready, Served as NetServed}
use cannelloni.UdpThread.Rounds.{Sound, run_round-BothSound}
use cannelloni.UdpThread.OwnBuffer.{run_round-SameFrames}
use cannelloni.SctpThread.Connect.{udp_thread, can_thread, threads-IsLawful}
use cannelloni.System.{System, Step, Reach, can_turn, net_turn, here, next}
use cannelloni.System.Borrowed.{can_round-LeavesNet}

-- Both frame buffers are sound, but for the frames that are lost from the one at the network, which has
-- frames and is bounded.
abbrev pub IsGood : {Fd : Type 0} → List Frame → System Fd → Type 0
IsGood gone s =
    Sound gone s.net
    × IsSound s.can.frame_buffer []
    × (0 < s.net.frame_buffer.next_addr)
    × (0 < s.net.frame_buffer.max_alloc_count)

module _ {Fd : Type 0} (gettime : Fd → ItimerSpec) (settime : ItimerSpec → Fd → Fd)
    (write : ℕ → Frame → ℕ → Option ℕ) (send : List ℕ → Option ℕ) where
  -- The frames that are lost in a step, and in a run: at most one in each round in which recv(2) gave an
  -- incomplete frame, and none otherwise.
  abbrev pub Lost : {s t : System Fd} → Step gettime settime write send s t → List Frame → Type 0
  Lost (can_turn timer socket r stays e) now = Loses socket now
  Lost (net_turn timer socket r room e) now = now ≡ []

  abbrev pub LostOnTheWay :
      {s t : System Fd} → Reach gettime settime write send s t → List Frame → Type 0
  LostOnTheWay here more = more ≡ []
  LostOnTheWay (next r step) more =
      (now before : List Frame) × (more ≡ now ++ before) × Lost step now × LostOnTheWay r before

  can_turn-IsGood :
      (gone : List Frame) (s : System Fd) (timer : Option (Option ℕ)) (socket : Option Received)
      (r : CanServed Fd (UdpThread Fd))
      → SocketStaysInPlace socket
      → IsGood gone s
      → can_round gettime settime write
          (udp_thread gettime settime)
          (can_ready timer socket)
          s.can
          s.net
        ≡ some r
      → (more : List Frame) × IsGood (more ++ gone) (record { can = r.thread; net = r.peer })
        × Loses socket more
  unfolding udp_thread IsTracked
  can_turn-IsGood gone s timer socket r stays ((sound, tracked), own, some_frames, bounded) e =
      let peer = udp_thread gettime settime in
      let (r', more, done, own', sound', why) =
        run_round-IsSound gettime settime write peer (threads-IsLawful gettime settime).0 [] gone
          timer socket s.can s.net stays own (sound, some_frames, bounded) in
      let same : r' ≡ r = cc in
      let (intermediate, size, max, frames) =
        can_round-LeavesNet gettime settime write timer socket s.can s.net r e in
      (
        more,
        (
          (
            subst (λ (x : CanServed Fd (UdpThread Fd)). IsSound x.peer.frame_buffer (more ++ gone))
                same sound',
            rw (size, intermediate) tracked,
          ),
          subst (λ (x : CanServed Fd (UdpThread Fd)). IsSound x.thread.frame_buffer []) same own',
          omega (arith, frames, some_frames),
          omega (arith, max, bounded),
        ),
        why,
      )

  net_turn-IsGood :
      (gone : List Frame) (s : System Fd) (timer : Option (Option ℕ)) (socket : Option Message)
      (r : NetServed Fd (CanThread Fd))
      → HasRoom socket
      → IsGood gone s
      → net_round gettime settime
          (can_thread gettime settime)
          send
          (net_ready timer socket)
          s.net
          s.can
        ≡ some r
      → IsGood gone (record { can = r.peer; net = r.thread })
  unfolding can_thread
  net_turn-IsGood gone s timer socket r room (sound, own, some_frames, bounded) e =
      let peer = can_thread gettime settime in
      let (sound', own') =
        run_round-BothSound gettime settime peer (threads-IsLawful gettime settime).1 gone [] send
          timer socket s.net s.can r room (sound, own) e in
      let (max, frames) =
        run_round-SameFrames gettime settime peer send timer socket s.net s.can r e in
      (sound', own', omega (arith, frames, some_frames), omega (arith, max, bounded))

  pub Step-IsGood :
      {gone : List Frame} {s t : System Fd}
      → IsGood gone s
      → (step : Step gettime settime write send s t)
      → (now : List Frame) × IsGood (now ++ gone) t × Lost step now
  Step-IsGood {gone} {s} good (can_turn timer socket r stays e) =
      can_turn-IsGood gone s timer socket r stays good e
  Step-IsGood {gone} {s} good (net_turn timer socket r room e) =
      ([], net_turn-IsGood gone s timer socket r room good e, refl)

  Reach-LostOnTheWay :
      {gone : List Frame} {s t : System Fd}
      → IsGood gone s
      → (r : Reach gettime settime write send s t)
      → (more : List Frame) × IsGood (more ++ gone) t × LostOnTheWay r more
  Reach-LostOnTheWay good here = ([], good, refl)
  Reach-LostOnTheWay {gone} {s} {t} good (next r step) =
      let (before, good_then, lost_then) = Reach-LostOnTheWay good r in
      let (now, good_now, lost_now) = Step-IsGood good_then step in
      (
        now ++ before,
        subst (λ (fs : List Frame). IsGood fs t) (sym (append_assoc now before gone)) good_now,
        (now, before, refl, lost_now, lost_then),
      )

  -- In runs in which the rounds of the two threads do not overlap, in any order and with any events, from a
  -- good state: both frame buffers are sound, so no frame is in two places, the counts of bytes and of
  -- frames are right, and every frame ever created is in a list, except those of `gone` and, for each round
  -- in which recv(2) gave an incomplete frame, at most the one that it was to be read into. The next
  -- round at the CAN socket does not fault.
  pub Reach-IsGood :
      (gone : List Frame) (s t : System Fd) (timer : Option (Option ℕ)) (socket : Option Received)
      → SocketStaysInPlace socket
      → IsGood gone s
      → (way : Reach gettime settime write send s t)
      → (more : List Frame) × (r : CanServed Fd (UdpThread Fd)) × IsGood (more ++ gone) t
        × LostOnTheWay way more
        × (can_round gettime settime write
              (udp_thread gettime settime)
              (can_ready timer socket)
              t.can
              t.net
            ≡ some r)
  unfolding udp_thread
  Reach-IsGood gone s t timer socket stays good way =
      let (more, good_now, lost_frames) = Reach-LostOnTheWay good way in
      let ((sound, tracked), own, some_frames, bounded) = good_now in
      let (round, lost, done, own_then, sound_then, why) =
        run_round-IsSound gettime settime write (udp_thread gettime settime)
          (threads-IsLawful gettime settime).0 [] (more ++ gone) timer socket t.can t.net stays own
          (sound, some_frames, bounded) in
      (more, round, good_now, lost_frames, done)
