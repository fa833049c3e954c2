-- ===== src/System/Borrowed.antt =====
-- What a round of canthread.cpp leaves alone of its peer at the network, over UDP (udpthread.cpp) or over
-- SCTP (sctpthread.cpp).
use cannelloni.Prelude.{ℕ, ◌≡◌, refl, subst, ◌∙◌, inl, inr, true, Option, some, arith, Bool-cases}
use cannelloni.Frame.{Frame}
use cannelloni.FrameBuffer.{FrameBuffer, insert_frame, insert_frame_pool, request_frame}
use cannelloni.FrameBuffer.Untouched.{
  insert-Untouched, Untouched, LeavesUntouched, request_frame-LeavesUntouched,
}
use cannelloni.Timer.{ItimerSpec}
use cannelloni.Connection.{give_back}
use cannelloni.CanThread.{CanThread}
use cannelloni.CanThread.Receive.{Received}
use cannelloni.CanThread.Rounds.{run_round as can_round, ready as can_ready, Served as CanServed}
use cannelloni.CanThread.Peers.{Keeps, request_lem, run_round-Keeps}
use cannelloni.UdpThread.{UdpThread, transmit_frame}
use cannelloni.SctpThread.{SctpThread, transmit_or_drop}
use cannelloni.SctpThread.Connect.{udp_thread, sctp_thread}

Untouched-refl : (b : FrameBuffer) → Untouched b b
Untouched-refl b = (refl, refl, refl, omega arith)

Untouched-trans : (a b c : FrameBuffer) → Untouched a b → Untouched b c → Untouched a c
Untouched-trans a b c p q = (q.0 ∙ p.0, q.1 ∙ p.1, q.2 ∙ p.2, omega (arith, p.3, q.3))

request_frame-Untouched :
    (b b' : FrameBuffer) (r : Option Frame) → request_frame true b ≡ some (r, b') → Untouched b b'
request_frame-Untouched b b' r e =
    subst (LeavesUntouched b) e (request_frame-LeavesUntouched true b)

module _ {Fd : Type 0} (gettime : Fd → ItimerSpec) (settime : ItimerSpec → Fd → Fd) where
  abbrev LeavesNet : FrameBuffer → UdpThread Fd → Type 0
  LeavesNet b p = Untouched b p.frame_buffer

  udp_thread-Keeps : (b : FrameBuffer) → Keeps (udp_thread gettime settime) (LeavesNet b)
  unfolding udp_thread give_back transmit_frame
  udp_thread-Keeps b = record {
    requested = λ p p' r q e.
        let (b', given, same) = request_lem (udp_thread gettime settime) p p' r e in
        subst (LeavesNet b) same (
          Untouched-trans b p.frame_buffer b' q
            (request_frame-Untouched p.frame_buffer b' r given));
    given_back = λ f p q.
        Untouched-trans b p.frame_buffer (insert_frame_pool f p.frame_buffer) q
          (insert-Untouched f p.frame_buffer).1;
    transmitted = λ f p q.
        Untouched-trans b p.frame_buffer (insert_frame f p.frame_buffer) q
          (insert-Untouched f p.frame_buffer).0;
  }

  transmit_or_drop-Untouched :
      (b : FrameBuffer) (f : Frame) (t : SctpThread Fd)
      → Untouched b t.udp.frame_buffer
      → Untouched b (transmit_or_drop gettime settime f t).udp.frame_buffer
  unfolding transmit_or_drop transmit_frame
  transmit_or_drop-Untouched b f t q = elim (Bool-cases t.connected) [
    | inl on ↦ rw on (
        Untouched-trans b t.udp.frame_buffer (insert_frame f t.udp.frame_buffer) q
          (insert-Untouched f t.udp.frame_buffer).0)
    | inr off ↦ rw off (
        Untouched-trans b t.udp.frame_buffer (insert_frame_pool f t.udp.frame_buffer) q
          (insert-Untouched f t.udp.frame_buffer).1)
  ]

  sctp_thread-Keeps :
      (b : FrameBuffer) → Keeps (sctp_thread gettime settime) (λ t. Untouched b t.udp.frame_buffer)
  unfolding sctp_thread give_back
  sctp_thread-Keeps b = record {
    requested = λ p p' r q e.
        let (b', given, same) = request_lem (sctp_thread gettime settime) p p' r e in
        subst (λ (t : SctpThread Fd). Untouched b t.udp.frame_buffer) same
          (Untouched-trans b p.udp.frame_buffer b' q
            (request_frame-Untouched p.udp.frame_buffer b' r given));
    given_back = λ f p q.
        Untouched-trans b p.udp.frame_buffer (insert_frame_pool f p.udp.frame_buffer) q
          (insert-Untouched f p.udp.frame_buffer).1;
    transmitted = transmit_or_drop-Untouched b;
  }

  -- A round at the CAN socket does not touch the intermediate buffer of its peer over UDP.
  pub can_round-LeavesNet :
      (write : ℕ → Frame → ℕ → Option ℕ) (timer : Option (Option ℕ)) (socket : Option Received)
      (t : CanThread Fd) (p : UdpThread Fd) (r : CanServed Fd (UdpThread Fd))
      → can_round gettime settime write (udp_thread gettime settime) (can_ready timer socket) t p
        ≡ some r
      → Untouched p.frame_buffer r.peer.frame_buffer
  can_round-LeavesNet write timer socket t p r e =
      run_round-Keeps (udp_thread gettime settime) (LeavesNet p.frame_buffer)
        (udp_thread-Keeps p.frame_buffer) gettime settime write timer socket t p r
        (Untouched-refl p.frame_buffer) e

  -- And over SCTP.
  pub can_round-LeavesSctp :
      (write : ℕ → Frame → ℕ → Option ℕ) (timer : Option (Option ℕ)) (socket : Option Received)
      (t : CanThread Fd) (p : SctpThread Fd) (r : CanServed Fd (SctpThread Fd))
      → can_round gettime settime write (sctp_thread gettime settime) (can_ready timer socket) t p
        ≡ some r
      → Untouched p.udp.frame_buffer r.peer.udp.frame_buffer
  can_round-LeavesSctp write timer socket t p r e =
      run_round-Keeps (sctp_thread gettime settime)
        (λ (x : SctpThread Fd). Untouched p.udp.frame_buffer x.udp.frame_buffer)
        (sctp_thread-Keeps p.udp.frame_buffer) gettime settime write timer socket t p r
        (Untouched-refl p.udp.frame_buffer) e
