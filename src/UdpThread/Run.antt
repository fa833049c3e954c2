-- ===== src/UdpThread/Run.antt =====
-- `start`, `stop` and the rounds of the loop of `run` in udpthread.cpp. What select, read and recvfrom
-- give are events; the set-up of the socket is a pair of results.
use cannelloni.Prelude.{
  ℕ, ◌≤◌, ◌≡◌, ap, ◌∙◌, inl, inr, Bool, true, false, ◌&&◌, Option, none, some, List, [],
  if◌then◌else◌, Option-cases, length,
}
use mathlib.Core.Option
use cannelloni.Timer.{ItimerSpec, read, adjust, fire}
use cannelloni.Connection.{ConnectionThread}
use cannelloni.UdpThread.{UdpThread, on_transmit_timer, select_timeout}
use cannelloni.UdpThread.Receive.{parse_packet}

-- `start`: `none` is the result -1.
unfoldable pub start : {Fd : Type 0} → Bool → Bool → UdpThread Fd → Option (UdpThread Fd)
start has_socket bound t = if has_socket && bound then some t else none

-- What recvfrom gives: an error, nothing, or a packet, with whether its sender's address can be printed,
-- this address, the length, and the receive buffer.
pub data Message : Type 0 where
  receive_failed : Message
  zero_bytes : Message
  packet : Bool → ℕ → ℕ → List ℕ → Message

-- What select gives: an error, or what can be read from the transmit timer and from the socket, if they
-- are ready. The block timer only ends the wait.
pub data Ready : Type 0 where
  wait_failed : Ready
  ready : Option (Option ℕ) → Option Message → Ready

-- Whether the loop goes on, the packets that are sent, the thread, and its peer.
pub record Served (Fd P : Type 0) : Type 0 where
  pub goes_on : Bool
  pub sent : List (List ℕ)
  pub thread : UdpThread Fd
  pub peer : P

module _ {Fd : Type 0} (gettime : Fd → ItimerSpec) (settime : ItimerSpec → Fd → Fd) where
  unfoldable pub stop : UdpThread Fd → UdpThread Fd
  stop t = record t { block_timer = fire gettime settime t.block_timer }

  -- What `run` does before its loop.
  unfoldable pub arm : UdpThread Fd → UdpThread Fd
  arm t = record t {
    transmit_timer = adjust gettime settime t.timeout t.timeout t.transmit_timer;
    block_timer = adjust gettime settime select_timeout select_timeout t.block_timer;
  }

  unfoldable pub serve_timer :
      (List ℕ → Option ℕ) → Option (Option ℕ) → UdpThread Fd → Option (List (List ℕ) × UdpThread Fd)
  serve_timer send none t = some ([], t)
  serve_timer send (some num_exp) t = on_transmit_timer gettime settime send (read num_exp) t

  module _ {P : Type 0} (peer : ConnectionThread P) where
    unfoldable pub serve_socket : Option Message → UdpThread Fd → P → Option (UdpThread Fd × P)
    serve_socket none t p = some (t, p)
    serve_socket (some receive_failed) t p = some (t, p)
    serve_socket (some zero_bytes) t p = some (t, p)
    serve_socket (some (packet convertible addr len bytes)) t p =
        Option.map (λ (r : Bool × UdpThread Fd × P). (r.1, r.2))
          (parse_packet peer convertible addr len bytes t p)

    -- A round of the loop; `none` is a fault.
    unfoldable pub run_round : (List ℕ → Option ℕ) → Ready → UdpThread Fd → P → Option (Served Fd P)
    run_round send wait_failed t p =
        some (record { goes_on = false; sent = []; thread = t; peer = p })
    run_round send (ready timer socket) t p = Option.bind (serve_timer send timer t) λ r.
        Option.map
          (λ (q : UdpThread Fd × P). record {
            goes_on = true;
            sent = r.0;
            thread = q.0;
            peer = q.1;
          })
          (serve_socket socket r.1 p)

-- A round that does not fault serves the timer, and then the socket.
pub run_round_lem :
    {Fd P : Type 0} (gettime : Fd → ItimerSpec) (settime : ItimerSpec → Fd → Fd)
    (peer : ConnectionThread P) (send : List ℕ → Option ℕ) (timer : Option (Option ℕ))
    (socket : Option Message) (t : UdpThread Fd) (p : P) (r : Served Fd P)
    → run_round gettime settime peer send (ready timer socket) t p ≡ some r
    → (packets : List (List ℕ)) × (t' : UdpThread Fd) × (serve_timer gettime settime send timer t
        ≡ some (packets, t'))
      × (serve_socket gettime settime peer socket t' p ≡ some (r.thread, r.peer))
unfolding run_round Option.bind
run_round_lem {Fd} {P} gettime settime peer send timer socket t p r e =
    elim (Option-cases (serve_timer gettime settime send timer t)) [
      | inl failed ↦ absurd (cc (rw failed at e))
      | inr ((packets, t1), timed) ↦
          elim (Option-cases (serve_socket gettime settime peer socket t1 p)) [
            | inl failed ↦ absurd (cc (rw (timed, failed) at e))
            | inr ((t2, p2), received) ↦
                let same : record { goes_on = true; sent = packets; thread = t2; peer = p2 } ≡ r =
                  cc (rw (timed, received) at e) in
                (
                  packets,
                  t1,
                  timed,
                  received ∙ ap (λ (x : Served Fd P). some (x.thread, x.peer)) same,
                )
          ]
    ]

-- The receive buffer has room for the header of a packet.
abbrev pub HasRoom : Option Message → Type 0
HasRoom none = Unit {0}
HasRoom (some receive_failed) = Unit {0}
HasRoom (some zero_bytes) = Unit {0}
HasRoom (some (packet convertible addr len bytes)) = 5 ≤ length bytes
