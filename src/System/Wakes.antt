-- ===== src/System/Wakes.antt =====
-- What a round of canthread.cpp does to the transmit timer of its peer at the network, over UDP
-- (udpthread.cpp) or over SCTP (sctpthread.cpp): it starts it with each frame.
use cannelloni.Prelude.{◌≡◌, subst, inl, inr, true, Option, some, [], Bool-cases}
use cannelloni.Frame.{Frame}
use cannelloni.FrameBuffer.{FrameBuffer, insert_frame_pool, request_frame}
use cannelloni.FrameBuffer.Empty.{StaysEmpty, request_frame-StaysEmpty}
use cannelloni.Timer.{ItimerSpec}
use cannelloni.Timer.Laws.{ReadsBack}
use cannelloni.Connection.{give_back}
use cannelloni.CanThread.Peers.{Keeps, request_lem}
use cannelloni.UdpThread.{UdpThread}
use cannelloni.UdpThread.Alarm.{WillSend, transmit_frame-WillSend}
use cannelloni.SctpThread.{SctpThread, transmit_or_drop}
use cannelloni.SctpThread.Connect.{udp_thread, sctp_thread}

request_frame-empty :
    (b b' : FrameBuffer) (r : Option Frame)
    → request_frame true b ≡ some (r, b')
    → b.buffer ≡ []
    → b'.buffer ≡ []
request_frame-empty b b' r e nothing = subst StaysEmpty e (request_frame-StaysEmpty true b nothing)

module _ {Fd : Type 0} (gettime : Fd → ItimerSpec) (settime : ItimerSpec → Fd → Fd)
    (law : ReadsBack gettime settime) where
  -- The buffer changes, but has no frame that it had not.
  pub shrink-WillSend :
      (t : UdpThread Fd) (b : FrameBuffer)
      → WillSend gettime settime t
      → (t.frame_buffer.buffer ≡ [] → b.buffer ≡ [])
      → WillSend gettime settime (record t { frame_buffer = b })
  shrink-WillSend t b w h = record {
    waits = elim w.waits [ inl nothing ↦ inl (h nothing) | inr runs ↦ inr runs ];
    periodic = w.periodic;
    timeout_range = w.timeout_range;
    table = w.table;
  }

  pub udp_thread-WillSend : Keeps (udp_thread gettime settime) (WillSend gettime settime)
  unfolding udp_thread give_back insert_frame_pool
  udp_thread-WillSend = record {
    requested = λ p p' r w e.
        let (b, given, same) = request_lem (udp_thread gettime settime) p p' r e in
        subst (WillSend gettime settime) same
          (shrink-WillSend p b w (request_frame-empty p.frame_buffer b r given));
    given_back = λ f p w. shrink-WillSend p _ w (λ e. e);
    transmitted = transmit_frame-WillSend gettime settime law;
  }

  abbrev Waits : SctpThread Fd → Type 0
  Waits t = WillSend gettime settime t.udp

  transmit_or_drop-WillSend :
      (f : Frame) (t : SctpThread Fd) → Waits t → Waits (transmit_or_drop gettime settime f t)
  unfolding transmit_or_drop insert_frame_pool
  transmit_or_drop-WillSend f t w = elim (Bool-cases t.connected) [
    | inl on ↦ rw on (transmit_frame-WillSend gettime settime law f t.udp w)
    | inr off ↦ rw off (shrink-WillSend t.udp _ w (λ e. e))
  ]

  pub sctp_thread-WillSend : Keeps (sctp_thread gettime settime) Waits
  unfolding sctp_thread give_back insert_frame_pool
  sctp_thread-WillSend = record {
    requested = λ p p' r w e.
        let (b, given, same) = request_lem (sctp_thread gettime settime) p p' r e in
        subst Waits same
          (shrink-WillSend p.udp b w (request_frame-empty p.udp.frame_buffer b r given));
    given_back = λ f p w. shrink-WillSend p.udp _ w (λ e. e);
    transmitted = transmit_or_drop-WillSend;
  }
