-- ===== src/SctpThread/Sockets/Once.antt =====
-- How often `m_socket` of sctpthread.cpp is closed.
use cannelloni.Prelude.{
  ℕ, ◌≡◌, refl, sym, ap, subst, ◌∙◌, inl, inr, Bool, true, false, not, ◌&&◌, Option, none, some,
  List, [], ◌∷◌, ◌++◌, ◌==◌, if◌then◌else◌, Bool-cases, Option-cases,
}
use mathlib.Core.Option
use cannelloni.Timer.{ItimerSpec, read}
use cannelloni.Connection.{ConnectionThread}
use cannelloni.UdpThread.{on_transmit_timer}
use cannelloni.UdpThread.Receive.{parse_packet}
use cannelloni.SctpThread.{
  SctpThread, SctpThreadRole, server, client, ServerEvent, ClientEvent, select_failed, no_client,
  accept_failed, not_convertible, accepted, socket_failed, connect_failed, connects,
  wait_for_client, connect_client, connect_to_server, disconnect, serve_timer, serve_socket,
  run_round, Served, Message, receive_failed, closed, packet, serve, Ready, ready, wait_failed,
}
use cannelloni.SctpThread.Keeps.{run_connected}
use cannelloni.SctpThread.Sockets.{
  SocketCall, closes, server_calls, client_calls, message_calls, serve_calls, round_calls,
  shutdown_calls, run_call, run_calls, Events, Ran, run_loop,
}

run_calls-append :
    (cs ds : List SocketCall) (a b : Bool)
    → run_calls cs a ≡ some b
    → run_calls (cs ++ ds) a ≡ run_calls ds b
unfolding run_calls Option.bind
run_calls-append [] ds a b e = let same : a ≡ b = cc in ap (run_calls ds) same
run_calls-append (c ∷ cs) ds a b e = elim (Option-cases (run_call c a)) [
  | inl failed ↦ absurd (cc (rw failed at e))
  | inr (o, done) ↦ rw done (run_calls-append cs ds o b (rw done at e))
]

last_close : (on : Bool) → run_calls (closes ∷ []) on ≡ (if on then some false else none)
unfolding run_calls run_call Option.bind
last_close true = refl
last_close false = refl

server_calls_lem :
    {Fd : Type 0} (e : ServerEvent) (t : SctpThread Fd)
    → t.connected ≡ false
    → run_calls (server_calls e t) false ≡ some (wait_for_client e t).connected
unfolding server_calls wait_for_client connect_client run_calls run_call Option.bind
server_calls_lem select_failed t off = rw off refl
server_calls_lem no_client t off = rw off refl
server_calls_lem accept_failed t off = rw off refl
server_calls_lem not_convertible t off = rw off refl
server_calls_lem (accepted addr) t off =
    elim (Bool-cases (t.check_peer_connect && not (addr == t.udp.remote_addr))) [
      | inl foreign ↦ rw (foreign, off) refl
      | inr fine ↦ rw fine refl
    ]

client_calls_lem :
    {Fd : Type 0} (e : ClientEvent) (t : SctpThread Fd)
    → t.connected ≡ false
    → run_calls (client_calls e) false ≡ some (connect_to_server e t).connected
unfolding client_calls connect_to_server run_calls run_call Option.bind
client_calls_lem socket_failed t off = rw off refl
client_calls_lem connect_failed t off = rw off refl
client_calls_lem (connects assoc_id) t off = refl

module _ {Fd P : Type 0} (gettime : Fd → ItimerSpec) (settime : ItimerSpec → Fd → Fd)
    (peer : ConnectionThread P) (send : List ℕ → Option ℕ) where
  serve_timer-connected :
      (timer : Option (Option ℕ)) (t t' : SctpThread Fd) (packets : List (List ℕ))
      → serve_timer gettime settime send timer t ≡ some (packets, t')
      → t'.connected ≡ t.connected
  unfolding serve_timer
  serve_timer-connected none t t' packets e =
      let same : t ≡ t' = cc in ap (λ (u : SctpThread Fd). u.connected) (sym same)
  serve_timer-connected (some n) t t' packets e =
      elim (Option-cases (on_transmit_timer gettime settime send (read n) t.udp)) [
        | inl failed ↦ absurd (cc (rw failed at e))
        | inr ((ps, u), done) ↦
            let same : record t { udp = u } ≡ t' = cc (rw done at e) in
            ap (λ (w : SctpThread Fd). w.connected) (sym same)
      ]

  -- The thread of a result, by another name.
  same_connected :
      (t t' : SctpThread Fd) (p p' : P)
      → ◌≡◌ {A = Option (SctpThread Fd × P)} (some (t, p)) (some (t', p'))
      → t.connected ≡ t'.connected
  same_connected t t' p p' e =
      let same : t ≡ t' = cc in ap (λ (u : SctpThread Fd). u.connected) same

  message_calls_lem :
      (m : Option Message) (t t' : SctpThread Fd) (p p' : P)
      → t.connected ≡ true
      → serve_socket gettime settime peer m t p ≡ some (t', p')
      → run_calls (message_calls m) true ≡ some t'.connected
  unfolding serve_socket message_calls disconnect run_calls run_call Option.bind
  message_calls_lem none t t' p p' on e = ap some (sym on ∙ same_connected t t' p p' e)
  message_calls_lem (some receive_failed) t t' p p' on e =
      ap some (same_connected (record t { connected = false }) t' p p' e)
  message_calls_lem (some closed) t t' p p' on e =
      ap some (same_connected (record t { connected = false }) t' p p' e)
  message_calls_lem (some (packet convertible addr len bytes)) t t' p p' on e =
      elim (Option-cases (parse_packet peer convertible addr len bytes t.udp p)) [
        | inl failed ↦ absurd (cc (rw failed at e))
        | inr ((caught, u, q), done) ↦
            ap some (sym on ∙ same_connected (record t { udp = u }) t' q p' (rw done at e))
      ]

  serve_calls_lem :
      (r : Ready) (t : SctpThread Fd) (p : P) (s : Served Fd P)
      → t.connected ≡ true
      → serve gettime settime peer send r t p ≡ some s
      → run_calls (serve_calls r) true ≡ some s.thread.connected
  unfolding serve serve_calls disconnect run_calls run_call Option.bind
  serve_calls_lem (wait_failed true) t p s on e =
      let same : record { sent = []; thread = record t { connected = false }; peer = p } ≡ s = cc in
      ap (λ (x : Served Fd P). some x.thread.connected) same
  serve_calls_lem (wait_failed false) t p s on e =
      let same : record { sent = []; thread = t; peer = p } ≡ s = cc in
      ap some (sym on) ∙ ap (λ (x : Served Fd P). some x.thread.connected) same
  serve_calls_lem (ready timer socket) t p s on e =
      elim (Option-cases (serve_timer gettime settime send timer t)) [
        | inl failed ↦ absurd (cc (rw failed at e))
        | inr ((packets, t1), timed) ↦
            elim (Option-cases (serve_socket gettime settime peer socket t1 p)) [
              | inl failed ↦ absurd (cc (rw (timed, failed) at e))
              | inr ((t2, p2), received) ↦
                  let same : record { sent = packets; thread = t2; peer = p2 } ≡ s =
                    cc (rw (timed, received) at e) in
                  message_calls_lem socket t1 t2 p p2
                    (serve_timer-connected timer t t1 packets timed ∙ on) received
                  ∙ ap (λ (x : Served Fd P). some x.thread.connected) same
            ]
      ]

  round_calls-connected :
      (at_server : ServerEvent) (at_client : ClientEvent) (r : Ready) (t : SctpThread Fd)
      → t.connected ≡ true
      → round_calls at_server at_client r t ≡ serve_calls r
  unfolding round_calls
  round_calls-connected at_server at_client r t on =
      ap
        (λ (c : Bool).
          if c
          then serve_calls r
          else elim t.role [ server ↦ server_calls at_server t | client ↦ client_calls at_client ])
        on

  round_calls_lem :
      (at_server : ServerEvent) (at_client : ClientEvent) (r : Ready) (t : SctpThread Fd) (p : P)
      (s : Served Fd P)
      → run_round gettime settime peer send at_server at_client r t p ≡ some s
      → run_calls (round_calls at_server at_client r t) t.connected ≡ some s.thread.connected
  unfolding run_round round_calls
  round_calls_lem at_server at_client r t p s e = elim (Bool-cases t.connected) [
    | inl on ↦
        ap (run_calls (round_calls at_server at_client r t)) on
        ∙ ap (λ (cs : List SocketCall). run_calls cs true)
            (round_calls-connected at_server at_client r t on)
        ∙ serve_calls_lem r t p s on
            (sym (run_connected gettime settime send peer at_server at_client r t p on) ∙ e)
    | inr off ↦ by_role t.role refl off
  ]
    where
      by_role :
          (role : SctpThreadRole)
          → t.role ≡ role
          → t.connected ≡ false
          → run_calls (round_calls at_server at_client r t) t.connected ≡ some s.thread.connected
      by_role server is off =
          let same : record { sent = []; thread = wait_for_client at_server t; peer = p } ≡ s =
            cc (rw (off, is) at e) in
          rw (off, is)
            (server_calls_lem at_server t off
              ∙ ap (λ (x : Served Fd P). some x.thread.connected) same)
      by_role client is off =
          let same : record { sent = []; thread = connect_to_server at_client t; peer = p } ≡ s =
            cc (rw (off, is) at e) in
          rw (off, is)
            (client_calls_lem at_client t off
              ∙ ap (λ (x : Served Fd P). some x.thread.connected) same)

  run_loop_lem :
      (es : List Events) (t : SctpThread Fd) (p : P) (r : Ran Fd P)
      → run_loop gettime settime peer send es t p ≡ some r
      → run_calls r.calls t.connected ≡ some r.thread.connected
  unfolding run_loop run_calls Option.bind
  run_loop_lem [] t p r e =
      let same : record { calls = []; thread = t; peer = p } ≡ r = cc in
      subst (λ (x : Ran Fd P). run_calls x.calls t.connected ≡ some x.thread.connected) same refl
  run_loop_lem (ev ∷ es) t p r e =
      elim (Option-cases
        (run_round gettime settime peer send ev.at_server ev.at_client ev.at_select t p)) [
          | inl failed ↦ absurd (cc (rw failed at e))
          | inr (s, done) ↦
              elim (Option-cases (run_loop gettime settime peer send es s.thread s.peer)) [
                | inl failed ↦ absurd (cc (rw (done, failed) at e))
                | inr (q, rest) ↦
                    let first = round_calls ev.at_server ev.at_client ev.at_select t in
                    let same : record { calls = first ++ q.calls; thread = q.thread; peer = q.peer }
                        ≡ r =
                      cc (rw (done, rest) at e) in
                    subst
                      (λ (x : Ran Fd P). run_calls x.calls t.connected ≡ some x.thread.connected)
                      same
                      (run_calls-append first q.calls t.connected s.thread.connected
                          (round_calls_lem ev.at_server ev.at_client ev.at_select t p s done)
                        ∙ run_loop_lem es s.thread s.peer q rest)
              ]
        ]

  -- A thread over SCTP that starts without a connection, and whatever the kernel gives in each round: in
  -- the loop, `m_socket` is open if and only if the thread is connected, none that is open is
  -- overwritten, and none is closed twice. The close behind the loop is right if the thread is connected
  -- then, and closes a descriptor that is not open if it is not.
  pub shutdown_calls_lem :
      (es : List Events) (t : SctpThread Fd) (p : P) (r : Ran Fd P)
      → t.connected ≡ false
      → run_loop gettime settime peer send es t p ≡ some r
      → (run_calls r.calls false ≡ some r.thread.connected)
        × (run_calls (r.calls ++ shutdown_calls) false
            ≡ (if r.thread.connected then some false else none))
  unfolding shutdown_calls
  shutdown_calls_lem es t p r off e =
      let loop : run_calls r.calls false ≡ some r.thread.connected =
        ap (run_calls r.calls) (sym off) ∙ run_loop_lem es t p r e in
      (
        loop,
        run_calls-append r.calls (closes ∷ []) false r.thread.connected loop
            ∙ last_close r.thread.connected,
      )
