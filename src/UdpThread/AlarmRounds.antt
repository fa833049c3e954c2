-- ===== src/UdpThread/AlarmRounds.antt =====
-- The transmit timer in the rounds of the loop of udpthread.cpp.
use cannelloni.Prelude.{
  ℕ, ◌^◌, ◌<◌, ◌≡◌, refl, sym, subst, inl, inr, Bool, false, Option, none, some, List, arith, ltb,
  ◌==◌, Bool-cases, Option-cases,
}
use cannelloni.Frame.{Frame}
use cannelloni.FrameBuffer.{FrameBuffer, get_frame_buffer_size}
use cannelloni.FrameBuffer.Invariant.{IsSound}
use cannelloni.FrameBuffer.Capacity.{get_frame_buffer_size-zero}
use cannelloni.Timer.{ItimerSpec, read, disable, get_value}
use cannelloni.Timer.Laws.{ReadsBack}
use cannelloni.Connection.{ConnectionThread}
use cannelloni.UdpThread.{UdpThread, on_transmit_timer, prepare_buffer, send_packet, take_over}
use cannelloni.Packet.Build.{build_packet}
use cannelloni.UdpThread.Receive.{parse_packet, parse_packet-part, count_packet}
use cannelloni.UdpThread.Run.{
  run_round_lem, Message, receive_failed, zero_bytes, packet, ready, Served, serve_timer,
  serve_socket, run_round,
}
use cannelloni.UdpThread.Alarm.{WillSend, disable-IsPeriodic}

-- The frame buffer of the thread is sound, and its limit is such that the counter of bytes does not
-- wrap around.
abbrev pub CountsBytes : List Frame → FrameBuffer → Type 0
CountsBytes held b = IsSound b held × (0 < b.max_alloc_count) × (b.max_alloc_count < 2 ^ 55)

module _ {Fd : Type 0} (gettime : Fd → ItimerSpec) (settime : ItimerSpec → Fd → Fd)
    (law : ReadsBack gettime settime) where
  abbrev Waits : UdpThread Fd → Type 0
  Waits = WillSend gettime settime

  idle-WillSend :
      (t : UdpThread Fd) (held : List Frame)
      → CountsBytes held t.frame_buffer
      → Waits t
      → get_frame_buffer_size t.frame_buffer ≡ 0
      → Waits (record t { transmit_timer = disable gettime settime t.transmit_timer })
  idle-WillSend t held (v, limited, small) w size = record {
    waits = inl ((get_frame_buffer_size-zero t.frame_buffer held v limited small).0 size);
    periodic = disable-IsPeriodic gettime settime law t.transmit_timer w.periodic;
    timeout_range = w.timeout_range;
    table = w.table;
  }

  busy-runs :
      (t : UdpThread Fd) (held : List Frame)
      → CountsBytes held t.frame_buffer
      → Waits t
      → (get_frame_buffer_size t.frame_buffer == 0) ≡ false
      → 0 < get_value gettime settime t.transmit_timer
  busy-runs t held (v, limited, small) w busy = elim w.waits [
    | inr runs ↦ runs
    | inl nothing ↦
        let size : get_frame_buffer_size t.frame_buffer ≡ 0 =
          (get_frame_buffer_size-zero t.frame_buffer held v limited small).1 nothing in
        absurd (cc (rw size at busy))
  ]

  send_packet-WillSend :
      (send : List ℕ → Option ℕ) (t t' : UdpThread Fd) (bytes : List ℕ)
      → 0 < get_value gettime settime t.transmit_timer
      → Waits t
      → prepare_buffer send t ≡ some (bytes, t')
      → Waits t'
  unfolding prepare_buffer send_packet
  send_packet-WillSend send t t' bytes runs w e =
      elim (Option-cases
        (build_packet t.payload_size t.sequence_number (take_over t).intermediate_buffer)) [
          | inl failed ↦ absurd (cc (rw failed at e))
          | inr (p, built) ↦
              let same : send_packet send t (take_over t) p ≡ t' = cc (rw built at e) in
              subst Waits same (record {
                waits = inr runs;
                periodic = w.periodic;
                timeout_range = w.timeout_range;
                table = w.table;
              })
        ]

  pub on_transmit_timer-WillSend :
      (send : List ℕ → Option ℕ) (n : ℕ) (t t' : UdpThread Fd) (held : List Frame)
      (packets : List (List ℕ))
      → CountsBytes held t.frame_buffer
      → Waits t
      → on_transmit_timer gettime settime send n t ≡ some (packets, t')
      → Waits t'
  unfolding on_transmit_timer
  on_transmit_timer-WillSend send n t t' held packets v w e = elim (Bool-cases (ltb 0 n)) [
    | inr quiet ↦ let same : t ≡ t' = cc (rw quiet at e) in subst Waits same w
    | inl expired ↦ elim (Bool-cases (get_frame_buffer_size t.frame_buffer == 0)) [
      | inl idle ↦
          let same : record t { transmit_timer = disable gettime settime t.transmit_timer } ≡ t' =
            cc (rw (expired, idle) at e) in
          subst Waits same (idle-WillSend t held v w (ground (arith, idle)))
      | inr busy ↦ elim (Option-cases (prepare_buffer send t)) [
        | inl failed ↦ absurd (cc (rw (expired, busy, failed) at e))
        | inr ((content, t1), sent) ↦
            let same : t1 ≡ t' = cc (rw (expired, busy, sent) at e) in
            subst Waits same
              (send_packet-WillSend send t t1 content (busy-runs t held v w busy) w sent)
      ]
    ]
  ]

  serve_timer-WillSend :
      (send : List ℕ → Option ℕ) (timer : Option (Option ℕ)) (t t' : UdpThread Fd)
      (held : List Frame) (packets : List (List ℕ))
      → CountsBytes held t.frame_buffer
      → Waits t
      → serve_timer gettime settime send timer t ≡ some (packets, t')
      → Waits t'
  unfolding serve_timer
  serve_timer-WillSend send none t t' held packets v w e =
      let same : t ≡ t' = cc in subst Waits same w
  serve_timer-WillSend send (some n) t t' held packets v w e =
      on_transmit_timer-WillSend send (read n) t t' held packets v w e

  module _ {P : Type 0} (peer : ConnectionThread P) where
    pub parse_packet-WillSend :
        (convertible : Bool) (client_addr len : ℕ) (buffer : List ℕ) (t t' : UdpThread Fd)
        (p p' : P) (caught : Bool)
        → Waits t
        → parse_packet peer convertible client_addr len buffer t p ≡ some (caught, t', p')
        → Waits t'
    unfolding count_packet
    parse_packet-WillSend convertible client_addr len buffer t t' p p' caught w e =
        let same : record t' { rx_count = 0 } ≡ record t { rx_count = 0 } =
          parse_packet-part peer (λ (u : UdpThread Fd). record u { rx_count = 0 }) (λ u. refl)
            convertible client_addr len buffer t t' p p' caught e in
        let w' : Waits (record t' { rx_count = 0 }) = subst Waits (sym same) (record {
          waits = w.waits;
          periodic = w.periodic;
          timeout_range = w.timeout_range;
          table = w.table;
        }) in
        record {
          waits = w'.waits;
          periodic = w'.periodic;
          timeout_range = w'.timeout_range;
          table = w'.table;
        }

    idle_socket :
        (t t' : UdpThread Fd) (p p' : P)
        → Waits t
        → ◌≡◌ {A = Option (UdpThread Fd × P)} (some (t, p)) (some (t', p'))
        → Waits t'
    idle_socket t t' p p' w e = let same : t ≡ t' = cc in subst Waits same w

    serve_socket-WillSend :
        (m : Option Message) (t t' : UdpThread Fd) (p p' : P)
        → Waits t
        → serve_socket gettime settime peer m t p ≡ some (t', p')
        → Waits t'
    unfolding serve_socket
    serve_socket-WillSend none t t' p p' w e = idle_socket t t' p p' w e
    serve_socket-WillSend (some receive_failed) t t' p p' w e = idle_socket t t' p p' w e
    serve_socket-WillSend (some zero_bytes) t t' p p' w e = idle_socket t t' p p' w e
    serve_socket-WillSend (some (packet convertible addr len content)) t t' p p' w e =
        elim (Option-cases (parse_packet peer convertible addr len content t p)) [
          | inl failed ↦ absurd (cc (rw failed at e))
          | inr ((caught, u, q), done) ↦
              idle_socket u t' q p'
                (parse_packet-WillSend convertible addr len content t u p q caught w done)
                (rw done at e)
        ]

    -- A round of the loop that does not fault disables the timer only if no frame waits.
    pub run_round-WillSend :
        (send : List ℕ → Option ℕ) (timer : Option (Option ℕ)) (socket : Option Message)
        (t : UdpThread Fd) (p : P) (held : List Frame) (r : Served Fd P)
        → CountsBytes held t.frame_buffer
        → Waits t
        → run_round gettime settime peer send (ready timer socket) t p ≡ some r
        → Waits r.thread
    run_round-WillSend send timer socket t p held r v w e =
        let (packets, t', timed, received) =
          run_round_lem gettime settime peer send timer socket t p r e in
        serve_socket-WillSend socket t' r.thread p r.peer
          (serve_timer-WillSend send timer t t' held packets v w timed) received
