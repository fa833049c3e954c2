-- ===== src/SctpThread/Keeps.antt =====
-- What a round of `SCTPThread::run` in sctpthread.cpp does to the part of the thread that is a UDPThread:
-- it serves the transmit timer, parses packets, and clears the frame buffer for a new client. Only the
-- packets concern the peer.
use cannelloni.Prelude.{
  ℕ, ◌≤◌, ◌≡◌, refl, sym, ap, subst, ◌∙◌, inl, inr, Bool, true, false, not, ◌&&◌, Option, none,
  some, List, [], ◌==◌, if◌then◌else◌, Bool-cases, Option-cases, length,
}
use mathlib.Core.Option
use cannelloni.FrameBuffer.{reset}
use cannelloni.Timer.{ItimerSpec, read}
use cannelloni.Connection.{ConnectionThread}
use cannelloni.UdpThread.{UdpThread, on_transmit_timer}
use cannelloni.UdpThread.Receive.{parse_packet}
use cannelloni.SctpThread.{
  SctpThread, SctpThreadRole, server, client, ServerEvent, ClientEvent, select_failed, no_client,
  accept_failed, not_convertible, accepted, socket_failed, connect_failed, connects,
  wait_for_client, connect_client, connect_to_server, disconnect, serve_timer, serve_socket,
  run_round, Served, Message, receive_failed, closed, packet, serve, Ready, ready, wait_failed,
}

-- What sctp_recvmsg gives is read into a buffer that has room for the header of a packet.
abbrev pub HasRoom : Option Message → Type 0
HasRoom none = Unit {0}
HasRoom (some receive_failed) = Unit {0}
HasRoom (some closed) = Unit {0}
HasRoom (some (packet convertible addr len bytes)) = 5 ≤ length bytes

abbrev pub ReadsIntoRoom : Ready → Type 0
ReadsIntoRoom (wait_failed eof) = Unit {0}
ReadsIntoRoom (ready timer socket) = HasRoom socket

module _ {Fd P : Type 0} (gettime : Fd → ItimerSpec) (settime : ItimerSpec → Fd → Fd)
    (send : List ℕ → Option ℕ) (peer : ConnectionThread P) where
  pub record Keeps (Q : UdpThread Fd → P → Type 0) : Type 0 where
    pub timed :
        (n : ℕ) (t t' : UdpThread Fd) (p : P) (packets : List (List ℕ))
        → Q t p
        → on_transmit_timer gettime settime send n t ≡ some (packets, t')
        → Q t' p
    pub parsed :
        (convertible : Bool) (addr len : ℕ) (bytes : List ℕ) (t t' : UdpThread Fd) (p p' : P)
        (caught : Bool)
        → 5 ≤ length bytes
        → Q t p
        → parse_packet peer convertible addr len bytes t p ≡ some (caught, t', p')
        → Q t' p'
    pub cleared :
        (t : UdpThread Fd) (p : P) → Q t p → Q (record t { frame_buffer = reset t.frame_buffer }) p

  pub run_connected :
      (at_server : ServerEvent) (at_client : ClientEvent) (r : Ready) (t : SctpThread Fd) (p : P)
      → t.connected ≡ true
      → run_round gettime settime peer send at_server at_client r t p
        ≡ serve gettime settime peer send r t p
  unfolding run_round
  run_connected at_server at_client r t p on =
      ap
        (λ (c : Bool). if c then serve gettime settime peer send r t p else elim t.role [
          | server ↦ some (record { sent = []; thread = wait_for_client at_server t; peer = p })
          | client ↦ some (record { sent = []; thread = connect_to_server at_client t; peer = p })
        ])
        on

  module _ (Q : UdpThread Fd → P → Type 0) (keeps : Keeps Q) where
    wait_for_client-Keeps :
        (e : ServerEvent) (t : SctpThread Fd) (p : P) → Q t.udp p → Q (wait_for_client e t).udp p
    unfolding wait_for_client connect_client
    wait_for_client-Keeps select_failed t p q = q
    wait_for_client-Keeps no_client t p q = q
    wait_for_client-Keeps accept_failed t p q = q
    wait_for_client-Keeps not_convertible t p q = q
    wait_for_client-Keeps (accepted addr) t p q =
        elim (Bool-cases (t.check_peer_connect && not (addr == t.udp.remote_addr))) [
          | inl foreign ↦ rw foreign q
          | inr fine ↦ rw fine (keeps.cleared t.udp p q)
        ]

    connect_to_server-Keeps :
        (e : ClientEvent) (t : SctpThread Fd) (p : P) → Q t.udp p → Q (connect_to_server e t).udp p
    unfolding connect_to_server
    connect_to_server-Keeps socket_failed t p q = q
    connect_to_server-Keeps connect_failed t p q = q
    connect_to_server-Keeps (connects assoc_id) t p q = q

    -- The same thread, by another name.
    named :
        (t t' : SctpThread Fd) (p p' : P)
        → Q t.udp p
        → ◌≡◌ {A = Option (SctpThread Fd × P)} (some (t, p)) (some (t', p'))
        → Q t'.udp p'
    named t t' p p' q e =
        let same : t ≡ t' = cc in
        let same_peer : p ≡ p' = cc in
        subst (Q t'.udp) same_peer (subst (λ (u : SctpThread Fd). Q u.udp p) same q)

    serve_timer-Keeps :
        (timer : Option (Option ℕ)) (t t' : SctpThread Fd) (p : P) (packets : List (List ℕ))
        → Q t.udp p
        → serve_timer gettime settime send timer t ≡ some (packets, t')
        → Q t'.udp p
    unfolding serve_timer
    serve_timer-Keeps none t t' p packets q e =
        let same : t ≡ t' = cc in subst (λ (u : SctpThread Fd). Q u.udp p) same q
    serve_timer-Keeps (some n) t t' p packets q e =
        elim (Option-cases (on_transmit_timer gettime settime send (read n) t.udp)) [
          | inl failed ↦ absurd (cc (rw failed at e))
          | inr ((ps, u), done) ↦
              let same : record t { udp = u } ≡ t' = cc (rw done at e) in
              subst (λ (w : SctpThread Fd). Q w.udp p) same
                (keeps.timed (read n) t.udp u p ps q done)
        ]

    serve_socket-Keeps :
        (m : Option Message) (t t' : SctpThread Fd) (p p' : P)
        → HasRoom m
        → Q t.udp p
        → serve_socket gettime settime peer m t p ≡ some (t', p')
        → Q t'.udp p'
    unfolding serve_socket disconnect
    serve_socket-Keeps none t t' p p' room q e = named t t' p p' q e
    serve_socket-Keeps (some receive_failed) t t' p p' room q e =
        named (record t { connected = false }) t' p p' q e
    serve_socket-Keeps (some closed) t t' p p' room q e =
        named (record t { connected = false }) t' p p' q e
    serve_socket-Keeps (some (packet convertible addr len bytes)) t t' p p' room q e =
        elim (Option-cases (parse_packet peer convertible addr len bytes t.udp p)) [
          | inl failed ↦ absurd (cc (rw failed at e))
          | inr ((caught, u, p1), done) ↦
              named (record t { udp = u }) t' p1 p'
                (keeps.parsed convertible addr len bytes t.udp u p p1 caught room q done)
                (rw done at e)
        ]

    serve-Keeps :
        (r : Ready) (t : SctpThread Fd) (p : P) (s : Served Fd P)
        → ReadsIntoRoom r
        → Q t.udp p
        → serve gettime settime peer send r t p ≡ some s
        → Q s.thread.udp s.peer
    unfolding serve disconnect Option.bind
    serve-Keeps (wait_failed eof) t p s room q e =
        let same : record {
          sent = [];
          thread = if eof then record t { connected = false } else t;
          peer = p;
        }
            ≡ s =
          cc in
        subst (λ (x : Served Fd P). Q x.thread.udp x.peer) same
          (elim (Bool-cases eof) [ inl ended ↦ rw ended q | inr goes_on ↦ rw goes_on q ])
    serve-Keeps (ready timer socket) t p s room q e =
        elim (Option-cases (serve_timer gettime settime send timer t)) [
          | inl failed ↦ absurd (cc (rw failed at e))
          | inr ((packets, t1), timed) ↦
              elim (Option-cases (serve_socket gettime settime peer socket t1 p)) [
                | inl failed ↦ absurd (cc (rw (timed, failed) at e))
                | inr ((t2, p2), received) ↦
                    let same : record { sent = packets; thread = t2; peer = p2 } ≡ s =
                      cc (rw (timed, received) at e) in
                    subst (λ (x : Served Fd P). Q x.thread.udp x.peer) same
                      (serve_socket-Keeps socket t1 t2 p p2 room
                        (serve_timer-Keeps timer t t1 p packets q timed) received)
              ]
        ]

    -- What these three keep, a round keeps, whatever select, accept, connect and receive give.
    pub run_round-Keeps :
        (at_server : ServerEvent) (at_client : ClientEvent) (r : Ready) (t : SctpThread Fd) (p : P)
        (s : Served Fd P)
        → ReadsIntoRoom r
        → Q t.udp p
        → run_round gettime settime peer send at_server at_client r t p ≡ some s
        → Q s.thread.udp s.peer
    unfolding run_round
    run_round-Keeps at_server at_client r t p s room q e = elim (Bool-cases t.connected) [
      | inl on ↦ serve-Keeps r t p s room q (sym (run_connected at_server at_client r t p on) ∙ e)
      | inr off ↦ by_role t.role refl off
    ]
      where
        by_role :
            (role : SctpThreadRole) → t.role ≡ role → t.connected ≡ false → Q s.thread.udp s.peer
        by_role server is off =
            let same : record { sent = []; thread = wait_for_client at_server t; peer = p } ≡ s =
              cc (rw (off, is) at e) in
            subst (λ (x : Served Fd P). Q x.thread.udp x.peer) same
              (wait_for_client-Keeps at_server t p q)
        by_role client is off =
            let same : record { sent = []; thread = connect_to_server at_client t; peer = p } ≡ s =
              cc (rw (off, is) at e) in
            subst (λ (x : Served Fd P). Q x.thread.udp x.peer) same
              (connect_to_server-Keeps at_client t p q)
