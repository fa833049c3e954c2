-- ===== src/SctpThread.antt =====
-- sctpthread.h and sctpthread.cpp: the thread at the network, over a connection of SCTP. The calls of
-- the kernel are events: what select, accept, connect and receive give.
pub mod Connect
pub mod Keeps
pub mod Rounds
pub mod Sockets
use cannelloni.Prelude.{
  ℕ, ◌-◌, Bool, true, false, not, ◌&&◌, Option, none, some, List, [], ◌==◌, if◌then◌else◌,
}
use mathlib.Core.Option
use cannelloni.Frame.{Frame}
use cannelloni.FrameBuffer.{FrameBuffer, insert_frame_pool, reset}
use cannelloni.Timer.{ItimerSpec, read}
use cannelloni.Connection.{ConnectionThread}
use cannelloni.UdpThread.{UdpThread, transmit_frame, on_transmit_timer}
use cannelloni.UdpThread.{init as udp_init}
use cannelloni.UdpThread.Receive.{parse_packet}
use cannelloni.UdpThread.Run.{arm as udp_arm}

-- `SCTP_PAYLOAD_SIZE`: the Ethernet MTU less the IP header, the SCTP header and one chunk header.
abbrev pub sctp_payload_size : ℕ
sctp_payload_size = 1500 - 20 - 12

pub data SctpThreadRole : Type 0 where
  server client : SctpThreadRole

-- The part of a UDPThread, and the members of SCTPThread.
pub record SctpThread (Fd : Type 0) : Type 0 where
  pub udp : UdpThread Fd
  pub check_peer_connect : Bool
  pub assoc_id : ℕ
  pub connected : Bool
  pub role : SctpThreadRole

-- The constructor.
unfoldable pub init :
    {Fd : Type 0} → Fd → Fd → FrameBuffer → ℕ → Bool → Bool → SctpThreadRole → SctpThread Fd
init transmit_timer block_timer buffer remote_addr sort_frames check_peer role = record {
  udp = record (udp_init transmit_timer block_timer buffer remote_addr sort_frames check_peer) {
    payload_size = sctp_payload_size;
  };
  check_peer_connect = check_peer;
  assoc_id = 0;
  connected = false;
  role = role;
}

-- `start`, for a server with what socket(2) and bind(2) return; `none` is the result -1.
unfoldable pub start : {Fd : Type 0} → Bool → SctpThread Fd → Option (SctpThread Fd)
start bound t = elim t.role [
  | server ↦ if bound then some (record t { udp = record t.udp { check_peer = false } }) else none
  | client ↦ some (record t { udp = record t.udp { check_peer = false } })
]

-- What `run` does before its loop.
unfoldable pub arm :
    {Fd : Type 0} → (Fd → ItimerSpec) → (ItimerSpec → Fd → Fd) → SctpThread Fd → SctpThread Fd
arm gettime settime t = record t { udp = udp_arm gettime settime t.udp }

-- What a server meets while it waits for a client.
pub data ServerEvent : Type 0 where
  select_failed : ServerEvent
  no_client : ServerEvent
  accept_failed : ServerEvent
  not_convertible : ServerEvent
  accepted : ℕ → ServerEvent

-- What a client meets while it connects.
pub data ClientEvent : Type 0 where
  socket_failed : ClientEvent
  connect_failed : ClientEvent
  connects : ℕ → ClientEvent

unfoldable pub connect_client : {Fd : Type 0} → SctpThread Fd → SctpThread Fd
connect_client t = record t {
  connected = true;
  udp = record t.udp { frame_buffer = reset t.udp.frame_buffer };
}

unfoldable pub wait_for_client : {Fd : Type 0} → ServerEvent → SctpThread Fd → SctpThread Fd
wait_for_client select_failed t = t
wait_for_client no_client t = t
wait_for_client accept_failed t = t
wait_for_client not_convertible t = t
wait_for_client (accepted addr) t =
    if t.check_peer_connect && not (addr == t.udp.remote_addr) then t else connect_client t

unfoldable pub connect_to_server : {Fd : Type 0} → ClientEvent → SctpThread Fd → SctpThread Fd
connect_to_server socket_failed t = t
connect_to_server connect_failed t = t
connect_to_server (connects assoc_id) t = record t { connected = true; assoc_id = assoc_id }

-- What sctp_recvmsg gives.
pub data Message : Type 0 where
  receive_failed : Message
  closed : Message
  packet : Bool → ℕ → ℕ → List ℕ → Message

-- What select gives on a connection: an error, which is an end of file or not, or the descriptors that
-- are ready, with what can be read from them.
pub data Ready : Type 0 where
  wait_failed : Bool → Ready
  ready : Option (Option ℕ) → Option Message → Ready

-- The packets that a round sends, the thread afterwards, and its peer.
pub record Served (Fd P : Type 0) : Type 0 where
  pub sent : List (List ℕ)
  pub thread : SctpThread Fd
  pub peer : P

unfoldable pub disconnect : {Fd : Type 0} → SctpThread Fd → SctpThread Fd
disconnect t = record t { connected = false }

module _ {Fd : Type 0} (gettime : Fd → ItimerSpec) (settime : ItimerSpec → Fd → Fd) where
  -- `SCTPThread::transmitFrame`: without a connection the frame is dropped.
  unfoldable pub transmit_or_drop : Frame → SctpThread Fd → SctpThread Fd
  transmit_or_drop f t =
      if t.connected
      then record t { udp = transmit_frame gettime settime f t.udp }
      else record t { udp = record t.udp { frame_buffer = insert_frame_pool f t.udp.frame_buffer } }

  -- The transmit timer, if it is ready.
  unfoldable pub serve_timer :
      (List ℕ → Option ℕ)
      → Option (Option ℕ)
      → SctpThread Fd
      → Option (List (List ℕ) × SctpThread Fd)
  serve_timer send none t = some ([], t)
  serve_timer send (some num_exp) t =
      Option.map (λ (r : List (List ℕ) × UdpThread Fd). (r.0, record t { udp = r.1 }))
        (on_transmit_timer gettime settime send (read num_exp) t.udp)

  module _ {P : Type 0} (peer : ConnectionThread P) where
    -- The socket, if it is ready.
    unfoldable pub serve_socket : Option Message → SctpThread Fd → P → Option (SctpThread Fd × P)
    serve_socket none t p = some (t, p)
    serve_socket (some receive_failed) t p = some (disconnect t, p)
    serve_socket (some closed) t p = some (disconnect t, p)
    serve_socket (some (packet convertible addr len bytes)) t p =
        Option.map (λ (r : Bool × UdpThread Fd × P). (record t { udp = r.1 }, r.2))
          (parse_packet peer convertible addr len bytes t.udp p)

    -- A round of `run` on a connection.
    unfoldable pub serve : (List ℕ → Option ℕ) → Ready → SctpThread Fd → P → Option (Served Fd P)
    serve send (wait_failed eof) t p =
        some (record { sent = []; thread = if eof then disconnect t else t; peer = p })
    serve send (ready timer socket) t p = Option.bind (serve_timer send timer t) λ r.
        Option.map (λ (q : SctpThread Fd × P). record { sent = r.0; thread = q.0; peer = q.1 })
          (serve_socket socket r.1 p)

    -- A round of `run`.
    unfoldable pub run_round :
        (List ℕ → Option ℕ)
        → ServerEvent
        → ClientEvent
        → Ready
        → SctpThread Fd
        → P
        → Option (Served Fd P)
    run_round send at_server at_client r t p =
        if t.connected then serve send r t p else elim t.role [
          | server ↦ some (record { sent = []; thread = wait_for_client at_server t; peer = p })
          | client ↦ some (record { sent = []; thread = connect_to_server at_client t; peer = p })
        ]
