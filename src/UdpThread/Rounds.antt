-- ===== src/UdpThread/Rounds.antt =====
-- The rounds of the loop of `run` in udpthread.cpp: no frame is lost.
use cannelloni.Prelude.{
  ℕ, ◌≡◌, sym, ap, subst, inl, inr, not, ◌&&◌, Option, none, some, List, [], ◌∷◌, ltb, ◌==◌,
  if◌then◌else◌, Bool-cases, Option-cases, length,
}
use cannelloni.Frame.{Frame}
use cannelloni.FrameBuffer.{FrameBuffer, get_frame_buffer_size}
use cannelloni.FrameBuffer.Invariant.{IsSound}
use cannelloni.FrameBuffer.Flush.{IsTracked}
use cannelloni.Timer.{ItimerSpec, read, disable}
use cannelloni.Connection.{ConnectionThread, IsLawful}
use cannelloni.UdpThread.{UdpThread, prepare_buffer, on_transmit_timer}
use cannelloni.UdpThread.Keeps.{prepare_buffer-IsSound}
use cannelloni.UdpThread.Receive.{parse_packet, parse_packet-IsSound, parse_packet-frame_buffer}
use cannelloni.UdpThread.Run.{
  run_round_lem, Message, receive_failed, zero_bytes, packet, ready, Served, serve_timer,
  serve_socket, run_round, HasRoom,
}

-- The frame buffer of the thread at the network is sound, and both its counters are right.
abbrev pub Sound : {Fd : Type 0} → List Frame → UdpThread Fd → Type 0
Sound held t = IsSound t.frame_buffer held × IsTracked t.frame_buffer

module _ {Fd : Type 0} (gettime : Fd → ItimerSpec) (settime : ItimerSpec → Fd → Fd) where
  -- A round for the transmit timer that does not fault sends one packet if the timer has expired and
  -- frames are waiting, and no packet otherwise. It leaves the frame buffer sound, and both its
  -- counters right.
  pub on_transmit_timer-Sound :
      (send : List ℕ → Option ℕ) (n : ℕ) (t t' : UdpThread Fd) (held : List Frame)
      (packets : List (List ℕ))
      → Sound held t
      → on_transmit_timer gettime settime send n t ≡ some (packets, t')
      → Sound held t'
        × (length packets
            ≡ (if ltb 0 n && not (get_frame_buffer_size t.frame_buffer == 0) then 1 else 0))
  unfolding on_transmit_timer
  on_transmit_timer-Sound send n t t' held packets v e = elim (Bool-cases (ltb 0 n)) [
    | inr quiet ↦
        let same : t ≡ t' = cc (rw quiet at e) in
        let nothing : [] ≡ packets = cc (rw quiet at e) in
        (subst (Sound held) same v, rw quiet (ap (length {A = List ℕ}) (sym nothing)))
    | inl expired ↦ elim (Bool-cases (get_frame_buffer_size t.frame_buffer == 0)) [
      | inl idle ↦
          let same : record t { transmit_timer = disable gettime settime t.transmit_timer } ≡ t' =
            cc (rw (expired, idle) at e) in
          let nothing : [] ≡ packets = cc (rw (expired, idle) at e) in
          (
            subst (λ (u : UdpThread Fd). Sound held u) same v,
            rw (expired, idle) (ap (length {A = List ℕ}) (sym nothing)),
          )
      | inr waiting ↦ elim (Option-cases (prepare_buffer send t)) [
        | inl failed ↦ absurd (cc (rw (expired, waiting, failed) at e))
        | inr ((bytes, t1), sent) ↦
            let same : t1 ≡ t' = cc (rw (expired, waiting, sent) at e) in
            let one : bytes ∷ [] ≡ packets = cc (rw (expired, waiting, sent) at e) in
            (
              subst (Sound held) same (prepare_buffer-IsSound send t t1 held bytes v.1 v.0 sent),
              rw (expired, waiting) (ap (length {A = List ℕ}) (sym one)),
            )
      ]
    ]
  ]

  serve_timer-Sound :
      (send : List ℕ → Option ℕ) (timer : Option (Option ℕ)) (t t' : UdpThread Fd)
      (held : List Frame) (packets : List (List ℕ))
      → Sound held t
      → serve_timer gettime settime send timer t ≡ some (packets, t')
      → Sound held t'
  unfolding serve_timer
  serve_timer-Sound send none t t' held packets v e =
      let same : t ≡ t' = cc in subst (Sound held) same v
  serve_timer-Sound send (some n) t t' held packets v e =
      (on_transmit_timer-Sound send (read n) t t' held packets v e).0

  module _ {P : Type 0} (peer : ConnectionThread P) (law : IsLawful peer)
      (held lent : List Frame) where
    abbrev BothSound : UdpThread Fd → P → Type 0
    BothSound t p = Sound held t × IsSound (peer.get_frame_buffer p) lent

    idle_socket :
        (t t' : UdpThread Fd) (p p' : P)
        → BothSound t p
        → ◌≡◌ {A = Option (UdpThread Fd × P)} (some (t, p)) (some (t', p'))
        → BothSound t' p'
    idle_socket t t' p p' v e =
        let same : t ≡ t' = cc in
        let same_peer : p ≡ p' = cc in
        (
          subst (Sound held) same v.0,
          subst (λ (q : P). IsSound (peer.get_frame_buffer q) lent) same_peer v.1,
        )

    serve_socket-Sound :
        (m : Option Message) (t t' : UdpThread Fd) (p p' : P)
        → HasRoom m
        → BothSound t p
        → serve_socket gettime settime peer m t p ≡ some (t', p')
        → BothSound t' p'
    unfolding serve_socket
    serve_socket-Sound none t t' p p' room v e = idle_socket t t' p p' v e
    serve_socket-Sound (some receive_failed) t t' p p' room v e = idle_socket t t' p p' v e
    serve_socket-Sound (some zero_bytes) t t' p p' room v e = idle_socket t t' p p' v e
    serve_socket-Sound (some (packet convertible addr len bytes)) t t' p p' room (v, w) e =
        elim (Option-cases (parse_packet peer convertible addr len bytes t p)) [
          | inl failed ↦ absurd (cc (rw failed at e))
          | inr ((caught, u, q), done) ↦
              let buffer : u.frame_buffer ≡ t.frame_buffer =
                parse_packet-frame_buffer peer convertible addr len bytes t u p q caught done in
              idle_socket u t' q p'
                (
                  subst (λ (b : FrameBuffer). IsSound b held × IsTracked b) (sym buffer) v,
                  parse_packet-IsSound peer law lent convertible addr len bytes t u p q caught w
                      room done,
                )
                (rw done at e)
        ]

    -- A round of the loop of `run` that does not fault loses no frame, whatever select and receive
    -- give, if the receive buffer holds at least five bytes: the frame buffers of the thread and of its
    -- lawful peer stay sound.
    pub run_round-BothSound :
        (send : List ℕ → Option ℕ) (timer : Option (Option ℕ)) (socket : Option Message)
        (t : UdpThread Fd) (p : P) (s : Served Fd P)
        → HasRoom socket
        → BothSound t p
        → run_round gettime settime peer send (ready timer socket) t p ≡ some s
        → BothSound s.thread s.peer
    run_round-BothSound send timer socket t p s room (v, w) e =
        let (packets, t', timed, received) =
          run_round_lem gettime settime peer send timer socket t p s e in
        serve_socket-Sound socket t' s.thread p s.peer room
          (serve_timer-Sound send timer t t' held packets v timed, w) received
