-- ===== src/SctpThread/Rounds.antt =====
-- Frames in the rounds of `SCTPThread::run` in sctpthread.cpp.
use cannelloni.Prelude.{ℕ, ◌≡◌, sym, subst, Option, some, List}
use cannelloni.Frame.{Frame}
use cannelloni.FrameBuffer.{FrameBuffer}
use cannelloni.FrameBuffer.Invariant.{IsSound}
use cannelloni.FrameBuffer.Flush.{IsTracked, reset-IsSound}
use cannelloni.Timer.{ItimerSpec}
use cannelloni.Connection.{ConnectionThread, IsLawful}
use cannelloni.UdpThread.{UdpThread}
use cannelloni.UdpThread.Rounds.{Sound, on_transmit_timer-Sound}
use cannelloni.UdpThread.Receive.{parse_packet-IsSound, parse_packet-frame_buffer}
use cannelloni.SctpThread.{SctpThread, ServerEvent, ClientEvent, run_round, Served, Ready}
use cannelloni.SctpThread.Keeps.{Keeps, ReadsIntoRoom, run_round-Keeps}

module _ {Fd P : Type 0} (gettime : Fd → ItimerSpec) (settime : ItimerSpec → Fd → Fd)
    (peer : ConnectionThread P) (law : IsLawful peer) (held lent : List Frame) where
  -- The thread's buffer and its peer's buffer.
  abbrev pub BothSound : UdpThread Fd → P → Type 0
  BothSound t p = Sound held t × IsSound (peer.get_frame_buffer p) lent

  pub BothSound-Keeps : (send : List ℕ → Option ℕ) → Keeps gettime settime send peer BothSound
  BothSound-Keeps send = record {
    timed = λ n t t' p packets (v, w) e.
        ((on_transmit_timer-Sound gettime settime send n t t' held packets v e).0, w);
    parsed = λ convertible addr len bytes t t' p p' caught room (v, w) e. (
      subst (λ (b : FrameBuffer). IsSound b held × IsTracked b)
          (sym (parse_packet-frame_buffer peer convertible addr len bytes t t' p p' caught e)) v,
      parse_packet-IsSound peer law lent convertible addr len bytes t t' p p' caught w room e,
    );
    cleared = λ t p (v, w). (reset-IsSound t.frame_buffer held v.0, w);
  }

  -- A round of `run` that does not fault loses no frame, whatever select, accept, connect and receive
  -- give, if the receive buffer holds at least five bytes: the frame buffers of the thread and of its
  -- lawful peer stay sound, over the end of a connection and the start of the next one.
  pub run_round-Sound :
      (send : List ℕ → Option ℕ) (at_server : ServerEvent) (at_client : ClientEvent) (r : Ready)
      (t : SctpThread Fd) (p : P) (s : Served Fd P)
      → ReadsIntoRoom r
      → BothSound t.udp p
      → run_round gettime settime peer send at_server at_client r t p ≡ some s
      → BothSound s.thread.udp s.peer
  run_round-Sound send at_server at_client r t p s room v e =
      run_round-Keeps gettime settime send peer BothSound (BothSound-Keeps send) at_server at_client
        r t p s room v e
