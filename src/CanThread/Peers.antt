-- ===== src/CanThread/Peers.antt =====
-- What a round of canthread.cpp does to the peer of its thread: it requests frames of the peer's buffer,
-- gives them back, and transmits them, and does nothing else.
use cannelloni.Prelude.{
  ℕ, ◌≡◌, ap, subst, ◌∙◌, inl, inr, true, ◌||◌, Option, none, some, ◌==◌, Bool-cases, Option-cases,
}
use cannelloni.Frame.{Frame}
use cannelloni.FrameBuffer.{FrameBuffer, request_frame}
use cannelloni.Timer.{ItimerSpec}
use cannelloni.Connection.{ConnectionThread, request, give_back}
use cannelloni.CanThread.{CanThread, can_mtu, canfd_mtu}
use cannelloni.CanThread.Receive.{
  Received, would_block, read_error, bytes, Round, mark_fd, after_recv, receive_into, receive_frame,
}
use cannelloni.CanThread.Rounds.{run_round, run_round_lem, ready, Served, serve_socket}

-- The three calls keep `Q` of the peer.
pub record Keeps {P : Type 0} (peer : ConnectionThread P) (Q : P → Type 0) : Type 0 where
  pub requested : (p p' : P) (r : Option Frame) → Q p → request peer p ≡ some (r, p') → Q p'
  pub given_back : (f : Frame) (p : P) → Q p → Q (give_back peer f p)
  pub transmitted : (f : Frame) (p : P) → Q p → Q (peer.transmit_frame f p)

-- A request that does not fault gives what `requestFrame` gives, and changes the buffer only.
pub request_lem :
    {P : Type 0} (peer : ConnectionThread P) (p p' : P) (r : Option Frame)
    → request peer p ≡ some (r, p')
    → (b : FrameBuffer) × (request_frame true (peer.get_frame_buffer p) ≡ some (r, b))
      × (peer.set_frame_buffer b p ≡ p')
unfolding request
request_lem peer p p' r e = elim (Option-cases (request_frame true (peer.get_frame_buffer p))) [
  | inl failed ↦ absurd (cc (rw failed at e))
  | inr ((q, b), given) ↦
      let same : q ≡ r = cc (rw given at e) in
      let same_peer : peer.set_frame_buffer b p ≡ p' = cc (rw given at e) in
      (b, given ∙ ap (λ (x : Option Frame). some (x, b)) same, same_peer)
]

module _ {Fd P : Type 0} (peer : ConnectionThread P) (Q : P → Type 0) (keeps : Keeps peer Q) where
  after_recv-Keeps :
      (received : Received) (f : Frame) (t : CanThread Fd) (p : P)
      → Q p
      → Q (after_recv peer received f t p).peer
  unfolding after_recv
  after_recv-Keeps would_block f t p q = keeps.given_back f p q
  after_recv-Keeps read_error f t p q = keeps.given_back f p q
  after_recv-Keeps (bytes n fill) f t p q = elim (Bool-cases (n == can_mtu || n == canfd_mtu)) [
    | inl whole ↦ rw whole (keeps.transmitted (mark_fd n (fill f)) p q)
    | inr cut ↦ rw cut q
  ]

  receive_into-Keeps :
      (received : Received) (t : CanThread Fd) (r : Option Frame) (p : P)
      → Q p
      → Q (receive_into peer received t (r, p)).peer
  unfolding receive_into
  receive_into-Keeps received t none p q = q
  receive_into-Keeps received t (some f) p q = after_recv-Keeps received f t p q

  receive_frame-Keeps :
      (received : Received) (t : CanThread Fd) (p : P) (round : Round Fd P)
      → Q p
      → receive_frame peer received t p ≡ some round
      → Q round.peer
  unfolding receive_frame
  receive_frame-Keeps received t p round q e = elim (Option-cases (request peer p)) [
    | inl failed ↦ absurd (cc (rw failed at e))
    | inr ((r, p'), given) ↦
        let same : receive_into peer received t (r, p') ≡ round = cc (rw given at e) in
        subst (λ (x : Round Fd P). Q x.peer) same
          (receive_into-Keeps received t r p' (keeps.requested p p' r q given))
  ]

  module _ (gettime : Fd → ItimerSpec) (settime : ItimerSpec → Fd → Fd)
      (write : ℕ → Frame → ℕ → Option ℕ) where
    serve_socket-Keeps :
        (socket : Option Received) (t : CanThread Fd) (p : P) (round : Round Fd P)
        → Q p
        → serve_socket gettime settime write peer socket t p ≡ some round
        → Q round.peer
    unfolding serve_socket
    serve_socket-Keeps none t p round q e =
        let same : record { goes_on = true; thread = t; peer = p } ≡ round = cc in
        subst (λ (x : Round Fd P). Q x.peer) same q
    serve_socket-Keeps (some received) t p round q e = receive_frame-Keeps received t p round q e

    -- What the three calls keep of the peer, a round keeps.
    pub run_round-Keeps :
        (timer : Option (Option ℕ)) (socket : Option Received) (t : CanThread Fd) (p : P)
        (r : Served Fd P)
        → Q p
        → run_round gettime settime write peer (ready timer socket) t p ≡ some r
        → Q r.peer
    run_round-Keeps timer socket t p r q e =
        let (s, round, timed, served, same) =
          run_round_lem gettime settime write peer timer socket t p r e in
        subst Q same (serve_socket-Keeps socket s.thread p round q served)
