-- ===== src/UdpThread/OwnBuffer.antt =====
-- What a round of the loop of udpthread.cpp leaves alone of the thread's own frame buffer.
use cannelloni.Prelude.{
  ℕ, ◌≡◌, refl, sym, ap, subst, ◌∙◌, inl, inr, Option, none, some, List, ltb, ◌==◌, Bool-cases,
  Option-cases,
}
use cannelloni.FrameBuffer.{get_frame_buffer_size}
use cannelloni.FrameBuffer.Untouched.{SameFrames}
use cannelloni.Timer.{ItimerSpec, read, disable}
use cannelloni.Connection.{ConnectionThread}
use cannelloni.UdpThread.{UdpThread, on_transmit_timer, prepare_buffer}
use cannelloni.UdpThread.Keeps.{prepare_buffer-SameFrames}
use cannelloni.UdpThread.Receive.{parse_packet, parse_packet-frame_buffer}
use cannelloni.UdpThread.Run.{
  run_round_lem, Message, receive_failed, zero_bytes, packet, ready, Served, serve_timer,
  serve_socket, run_round,
}

module _ {Fd : Type 0} (gettime : Fd → ItimerSpec) (settime : ItimerSpec → Fd → Fd) where
  pub on_transmit_timer-SameFrames :
      (send : List ℕ → Option ℕ) (n : ℕ) (t t' : UdpThread Fd) (packets : List (List ℕ))
      → on_transmit_timer gettime settime send n t ≡ some (packets, t')
      → SameFrames t.frame_buffer t'.frame_buffer
  unfolding on_transmit_timer
  on_transmit_timer-SameFrames send n t t' packets e = elim (Bool-cases (ltb 0 n)) [
    | inr quiet ↦
        let same : t ≡ t' = cc (rw quiet at e) in
        subst (λ (u : UdpThread Fd). SameFrames t.frame_buffer u.frame_buffer) same (refl, refl)
    | inl expired ↦ elim (Bool-cases (get_frame_buffer_size t.frame_buffer == 0)) [
      | inl idle ↦
          let same : record t { transmit_timer = disable gettime settime t.transmit_timer } ≡ t' =
            cc (rw (expired, idle) at e) in
          subst (λ (u : UdpThread Fd). SameFrames t.frame_buffer u.frame_buffer) same (refl, refl)
      | inr waiting ↦ elim (Option-cases (prepare_buffer send t)) [
        | inl failed ↦ absurd (cc (rw (expired, waiting, failed) at e))
        | inr ((content, t1), sent) ↦
            let same : t1 ≡ t' = cc (rw (expired, waiting, sent) at e) in
            subst (λ (u : UdpThread Fd). SameFrames t.frame_buffer u.frame_buffer) same
              (prepare_buffer-SameFrames send t t1 content sent)
      ]
    ]
  ]

  serve_timer-SameFrames :
      (send : List ℕ → Option ℕ) (timer : Option (Option ℕ)) (t t' : UdpThread Fd)
      (packets : List (List ℕ))
      → serve_timer gettime settime send timer t ≡ some (packets, t')
      → SameFrames t.frame_buffer t'.frame_buffer
  unfolding serve_timer
  serve_timer-SameFrames send none t t' packets e =
      let same : t ≡ t' = cc in
      subst (λ (u : UdpThread Fd). SameFrames t.frame_buffer u.frame_buffer) same (refl, refl)
  serve_timer-SameFrames send (some n) t t' packets e =
      on_transmit_timer-SameFrames send (read n) t t' packets e

  module _ {P : Type 0} (peer : ConnectionThread P) where
    idle_frame_buffer :
        (t t' : UdpThread Fd) (p p' : P)
        → ◌≡◌ {A = Option (UdpThread Fd × P)} (some (t, p)) (some (t', p'))
        → t'.frame_buffer ≡ t.frame_buffer
    idle_frame_buffer t t' p p' e =
        let same : t ≡ t' = cc in ap (λ (u : UdpThread Fd). u.frame_buffer) (sym same)

    net_socket-frame_buffer :
        (m : Option Message) (t t' : UdpThread Fd) (p p' : P)
        → serve_socket gettime settime peer m t p ≡ some (t', p')
        → t'.frame_buffer ≡ t.frame_buffer
    unfolding serve_socket
    net_socket-frame_buffer none t t' p p' e = idle_frame_buffer t t' p p' e
    net_socket-frame_buffer (some receive_failed) t t' p p' e = idle_frame_buffer t t' p p' e
    net_socket-frame_buffer (some zero_bytes) t t' p p' e = idle_frame_buffer t t' p p' e
    net_socket-frame_buffer (some (packet convertible addr len content)) t t' p p' e =
        elim (Option-cases (parse_packet peer convertible addr len content t p)) [
          | inl failed ↦ absurd (cc (rw failed at e))
          | inr ((caught, u, q), done) ↦
              idle_frame_buffer u t' q p' (rw done at e)
              ∙ parse_packet-frame_buffer peer convertible addr len content t u p q caught done
        ]

    -- A round of the loop creates no frame in the thread's own buffer.
    pub run_round-SameFrames :
        (send : List ℕ → Option ℕ) (timer : Option (Option ℕ)) (socket : Option Message)
        (t : UdpThread Fd) (p : P) (r : Served Fd P)
        → run_round gettime settime peer send (ready timer socket) t p ≡ some r
        → SameFrames t.frame_buffer r.thread.frame_buffer
    run_round-SameFrames send timer socket t p r e =
        let (packets, t', timed, received) =
          run_round_lem gettime settime peer send timer socket t p r e in
        rw (net_socket-frame_buffer socket t' r.thread p r.peer received)
          (serve_timer-SameFrames send timer t t' packets timed)
