-- ===== src/SctpThread/Sockets.antt =====
-- The descriptor `m_socket` in `SCTPThread::run` of sctpthread.cpp: which calls open and close it.
pub mod Once
use cannelloni.Prelude.{
  ℕ, Bool, true, false, not, ◌&&◌, Option, none, some, List, [], ◌∷◌, ◌++◌, ◌==◌, if◌then◌else◌,
}
use mathlib.Core.Option
use cannelloni.Timer.{ItimerSpec}
use cannelloni.Connection.{ConnectionThread}
use cannelloni.SctpThread.{
  SctpThread, server, client, ServerEvent, ClientEvent, select_failed, no_client, accept_failed,
  not_convertible, accepted, socket_failed, connect_failed, connects, run_round, Message,
  receive_failed, closed, packet, Ready, ready, wait_failed,
}

-- accept or socket with a descriptor or with -1, and close.
pub data SocketCall : Type 0 where
  opens : SocketCall
  fails : SocketCall
  closes : SocketCall

unfoldable pub server_calls : {Fd : Type 0} → ServerEvent → SctpThread Fd → List SocketCall
server_calls select_failed t = []
server_calls no_client t = []
server_calls accept_failed t = fails ∷ []
server_calls not_convertible t = opens ∷ closes ∷ []
server_calls (accepted addr) t =
    if t.check_peer_connect && not (addr == t.udp.remote_addr)
    then opens ∷ closes ∷ []
    else opens ∷ []

unfoldable pub client_calls : ClientEvent → List SocketCall
client_calls socket_failed = fails ∷ []
client_calls connect_failed = opens ∷ closes ∷ []
client_calls (connects assoc_id) = opens ∷ []

unfoldable pub message_calls : Option Message → List SocketCall
message_calls none = []
message_calls (some receive_failed) = closes ∷ []
message_calls (some closed) = closes ∷ []
message_calls (some (packet convertible addr len bytes)) = []

unfoldable pub serve_calls : Ready → List SocketCall
serve_calls (wait_failed eof) = if eof then closes ∷ [] else []
serve_calls (ready timer socket) = message_calls socket

unfoldable pub round_calls :
    {Fd : Type 0} → ServerEvent → ClientEvent → Ready → SctpThread Fd → List SocketCall
round_calls at_server at_client r t =
    if t.connected
    then serve_calls r
    else elim t.role [ server ↦ server_calls at_server t | client ↦ client_calls at_client ]

-- Behind the loop.
unfoldable pub shutdown_calls : List SocketCall
shutdown_calls = closes ∷ []

-- Whether `m_socket` is an open descriptor of the thread. `none`: an open one is overwritten and so lost,
-- or one that is not open is closed.
unfoldable pub run_call : SocketCall → Bool → Option Bool
run_call opens false = some true
run_call opens true = none
run_call fails false = some false
run_call fails true = none
run_call closes true = some false
run_call closes false = none

unfoldable pub run_calls : List SocketCall → Bool → Option Bool
run_calls [] is_open = some is_open
run_calls (c ∷ cs) is_open = Option.bind (run_call c is_open) λ b. run_calls cs b

-- What the kernel gives in a round.
pub record Events : Type 0 where
  pub at_server : ServerEvent
  pub at_client : ClientEvent
  pub at_select : Ready

-- The calls of the loop, the thread behind it, and its peer.
pub record Ran (Fd P : Type 0) : Type 0 where
  pub calls : List SocketCall
  pub thread : SctpThread Fd
  pub peer : P

module _ {Fd P : Type 0} (gettime : Fd → ItimerSpec) (settime : ItimerSpec → Fd → Fd)
    (peer : ConnectionThread P) (send : List ℕ → Option ℕ) where
  unfoldable pub run_loop : List Events → SctpThread Fd → P → Option (Ran Fd P)
  run_loop [] t p = some (record { calls = []; thread = t; peer = p })
  run_loop (e ∷ es) t p =
      Option.bind (run_round gettime settime peer send e.at_server e.at_client e.at_select t p) λ s.
        Option.map
          (λ (r : Ran Fd P). record {
            calls = round_calls e.at_server e.at_client e.at_select t ++ r.calls;
            thread = r.thread;
            peer = r.peer;
          })
          (run_loop es s.thread s.peer)
