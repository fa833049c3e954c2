-- ===== src/CanThread/Rounds.antt =====
-- The rounds of the loop of `run` in canthread.cpp. What select, read and recv give are events.
use cannelloni.Prelude.{
  ℕ, ◌<◌, ◌≡◌, refl, ap, inl, inr, Bool, true, false, not, ◌&&◌, Option, none, some, List, [], ◌++◌,
  ltb, ◌==◌, if◌then◌else◌, Bool-cases, Option-cases,
}
use mathlib.Core.Option
use cannelloni.Frame.{Frame}
use cannelloni.FrameBuffer.{get_frame_buffer_size}
use cannelloni.FrameBuffer.Invariant.{IsSound}
use cannelloni.Timer.{ItimerSpec, read}
use cannelloni.Connection.{ConnectionThread, IsLawful}
use cannelloni.CanThread.{CanThread, Sent, transmit_buffer}
use cannelloni.CanThread.Transmit.{transmit_buffer_lem}
use cannelloni.CanThread.Keeps.{transmit_buffer-IsSound}
use cannelloni.CanThread.Receive.{
  Received, StaysInPlace, Round, receive_frame, lost, receive_frame-IsSound,
  receive_frame-frame_buffer,
}

-- What select gives: an error, or what can be read from the timer and from the socket, if they are ready.
pub data Ready : Type 0 where
  wait_failed : Ready
  ready : Option (Option ℕ) → Option Received → Ready

-- Whether the loop goes on, the calls of write(2), the thread, and its peer.
pub record Served (Fd P : Type 0) : Type 0 where
  pub goes_on : Bool
  pub written : List (Frame × ℕ)
  pub thread : CanThread Fd
  pub peer : P

module _ {Fd P : Type 0} (gettime : Fd → ItimerSpec) (settime : ItimerSpec → Fd → Fd)
    (write : ℕ → Frame → ℕ → Option ℕ) (peer : ConnectionThread P) where
  unfoldable pub serve_timer : Option (Option ℕ) → CanThread Fd → Option (Sent Fd)
  serve_timer none t = some (record { frames = []; thread = t })
  serve_timer (some num_exp) t =
      if ltb 0 (read num_exp) && not (get_frame_buffer_size t.frame_buffer == 0)
      then transmit_buffer gettime settime write t
      else some (record { frames = []; thread = t })

  unfoldable pub serve_socket : Option Received → CanThread Fd → P → Option (Round Fd P)
  serve_socket none t p = some (record { goes_on = true; thread = t; peer = p })
  serve_socket (some received) t p = receive_frame peer received t p

  -- A round of the loop; `none` is a fault.
  unfoldable pub run_round : Ready → CanThread Fd → P → Option (Served Fd P)
  run_round wait_failed t p = some (record { goes_on = false; written = []; thread = t; peer = p })
  run_round (ready timer socket) t p = Option.bind (serve_timer timer t) λ s.
      Option.map
        (λ (r : Round Fd P). record {
          goes_on = r.goes_on;
          written = s.frames;
          thread = r.thread;
          peer = r.peer;
        })
        (serve_socket socket s.thread p)

-- A round that does not fault serves the timer, and then the socket.
pub run_round_lem :
    {Fd P : Type 0} (gettime : Fd → ItimerSpec) (settime : ItimerSpec → Fd → Fd)
    (write : ℕ → Frame → ℕ → Option ℕ) (peer : ConnectionThread P) (timer : Option (Option ℕ))
    (socket : Option Received) (t : CanThread Fd) (p : P) (r : Served Fd P)
    → run_round gettime settime write peer (ready timer socket) t p ≡ some r
    → (s : Sent Fd) × (round : Round Fd P) × (serve_timer gettime settime write peer timer t
        ≡ some s)
      × (serve_socket gettime settime write peer socket s.thread p ≡ some round)
      × (round.peer ≡ r.peer)
unfolding run_round Option.bind
run_round_lem {Fd} {P} gettime settime write peer timer socket t p r e =
    elim (Option-cases (serve_timer gettime settime write peer timer t)) [
      | inl failed ↦ absurd (cc (rw failed at e))
      | inr (s, timed) ↦
          elim (Option-cases (serve_socket gettime settime write peer socket s.thread p)) [
            | inl failed ↦ absurd (cc (rw (timed, failed) at e))
            | inr (round, served) ↦
                let same : record {
                  goes_on = round.goes_on;
                  written = s.frames;
                  thread = round.thread;
                  peer = round.peer;
                }
                    ≡ r =
                  cc (rw (timed, served) at e) in
                (s, round, timed, served, ap (λ (x : Served Fd P). x.peer) same)
          ]
    ]

-- The frame that a round loses, if any.
abbrev pub Loses : Option Received → List Frame → Type 0
Loses none gone = gone ≡ []
Loses (some received) gone = (r : Option Frame) × (gone ≡ lost received r)

abbrev pub SocketStaysInPlace : Option Received → Type 0
SocketStaysInPlace none = Unit {0}
SocketStaysInPlace (some received) = StaysInPlace received

module _ {Fd P : Type 0} (gettime : Fd → ItimerSpec) (settime : ItimerSpec → Fd → Fd)
    (write : ℕ → Frame → ℕ → Option ℕ) (peer : ConnectionThread P) (law : IsLawful peer)
    (held lent : List Frame) where
  serve_timer-IsSound :
      (timer : Option (Option ℕ)) (t : CanThread Fd)
      → IsSound t.frame_buffer held
      → (s : Sent Fd) × (serve_timer gettime settime write peer timer t ≡ some s)
        × IsSound s.thread.frame_buffer held
  unfolding serve_timer
  serve_timer-IsSound none t v = (record { frames = []; thread = t }, refl, v)
  serve_timer-IsSound (some n) t v =
      elim (Bool-cases (ltb 0 (read n) && not (get_frame_buffer_size t.frame_buffer == 0))) [
        | inr idle ↦ (record { frames = []; thread = t }, rw idle refl, v)
        | inl busy ↦
            let (s, done, rest) = transmit_buffer_lem gettime settime write t in
            (s, rw busy done, transmit_buffer-IsSound gettime settime write held t s v done)
      ]

  abbrev pub IsUsable : P → Type 0
  IsUsable p =
      IsSound (peer.get_frame_buffer p) lent
      × (0 < (peer.get_frame_buffer p).next_addr)
      × (0 < (peer.get_frame_buffer p).max_alloc_count)

  serve_socket-IsSound :
      (socket : Option Received) (t : CanThread Fd) (p : P)
      → SocketStaysInPlace socket
      → IsUsable p
      → (r : Round Fd P) × (gone : List Frame) × (serve_socket gettime settime write peer socket t p
          ≡ some r)
        × (r.thread.frame_buffer ≡ t.frame_buffer)
        × IsSound (peer.get_frame_buffer r.peer) (gone ++ lent)
        × Loses socket gone
  unfolding serve_socket
  serve_socket-IsSound none t p stays u =
      (record { goes_on = true; thread = t; peer = p }, [], refl, refl, u.0, refl)
  serve_socket-IsSound (some received) t p stays (v, some_frames, bounded) =
      let (round, r, p', done, given, sound) =
        receive_frame-IsSound peer law received t p lent stays v some_frames bounded in
      (
        round,
        lost received r,
        done,
        receive_frame-frame_buffer peer received t p round done,
        sound,
        (r, refl),
      )

  -- A round of the loop that select lets begin, with a peer whose buffer is sound, bounded and has
  -- frames, does not fault, whatever the events are. Both frame buffers stay sound, but for the frame
  -- of an incomplete read.
  pub run_round-IsSound :
      (timer : Option (Option ℕ)) (socket : Option Received) (t : CanThread Fd) (p : P)
      → SocketStaysInPlace socket
      → IsSound t.frame_buffer held
      → IsUsable p
      → (s : Served Fd P) × (gone : List Frame) × (run_round gettime settime write peer
            (ready timer socket)
            t
            p
          ≡ some s)
        × IsSound s.thread.frame_buffer held
        × IsSound (peer.get_frame_buffer s.peer) (gone ++ lent)
        × Loses socket gone
  unfolding run_round Option.bind
  run_round-IsSound timer socket t p stays v u =
      let (s, timed, own) = serve_timer-IsSound timer t v in
      let (r, gone, served, same, sound, why) = serve_socket-IsSound socket s.thread p stays u in
      (
        record { goes_on = r.goes_on; written = s.frames; thread = r.thread; peer = r.peer },
        gone,
        rw (timed, served) refl,
        rw same own,
        sound,
        why,
      )
