-- ===== src/Tests/Connections.antt =====
-- A run of the threads over SCTP, at a concrete input.
use cannelloni.Prelude.{
  ℕ, ◌<◌, ◌≡◌, refl, inl, true, false, Option, none, some, List, [], ◌∷◌, ◌++◌, arith,
}
use cannelloni.Frame.{Frame}
use mathlib.Core.Option
use cannelloni.FrameBuffer.Invariant.{IsSound}
use cannelloni.Timer.{ItimerSpec, get_value}
use cannelloni.Timer.Laws.{interval_of}
use cannelloni.CanThread.{CanThread}
use cannelloni.CanThread.Rounds.{ready, Served}
use cannelloni.CanThread.Rounds.{run_round as can_round}
use cannelloni.UdpThread.Rounds.{Sound}
use cannelloni.UdpThread.{init as udp_init}
use cannelloni.SctpThread.{
  SctpThread, accepted, no_client, connect_failed, closed, wait_failed, wait_for_client,
  connect_client, disconnect, run_round, serve, serve_timer, serve_socket, start, arm, server,
}
use cannelloni.SctpThread.{ready as ready_net}
use cannelloni.SctpThread.Sockets.{
  opens, closes, Events, Ran, run_loop, run_calls, round_calls, server_calls, serve_calls,
  message_calls, shutdown_calls,
}
use cannelloni.SctpThread.Sockets.Once.{shutdown_calls_lem}
use cannelloni.SctpThread.{init as sctp_init}
use cannelloni.SctpThread.Connect.{sctp_thread, can_thread}
use cannelloni.System.Sctp.{SctpSystem, Reach, here, next, net_turn, BothAwake}
use cannelloni.CanThread.Start.{arm as can_arm}
use cannelloni.Main.{
  Config, goes_on, defaults, set_role, first_of, set_option, read_options, check_options, has_peer,
  is_server, parse_options,
}
use cannelloni.Main.Setup.{
  load_table, no_text, new_buffer, configure, over_sctp, net_thread, set_up,
}
use cannelloni.System.Sctp.Start.{start-BothAwake}
use cannelloni.System.Sctp.Reconnects.{LostOnTheWay, Reach-BothAwake}
use cannelloni.Tests.Peers.{
  gettime, settime, off, one_free-IsSound, one_free-Sound, can, cut, waits, at_accept,
  round_at_accept,
}

-- The server waits, and nothing is buffered.
abbrev unconnected : SctpSystem ItimerSpec
unconnected = record { can = can; net = waits }

-- A client has connected.
abbrev connected : SctpSystem ItimerSpec
connected = record { can = at_accept.peer; net = at_accept.thread }

unconnected-BothAwake : BothAwake gettime settime [] unconnected
unfolding sctp_init udp_init interval_of
unconnected-BothAwake = (
  record {
    sound = one_free-Sound;
    some_frames = omega arith;
    limited = omega arith;
    small = omega arith;
    waits = record {
      waits = inl refl;
      periodic = (omega arith, omega arith);
      timeout_range = omega arith;
      table = tt;
    };
  },
  one_free-IsSound,
)

abbrev nothing_written : ℕ → Frame → ℕ → Option ℕ
nothing_written k f mtu = none

connects_once : Reach gettime settime nothing_written (λ bytes. none) unconnected connected
connects_once =
    next here
      (net_turn (accepted 3) connect_failed (wait_failed false) at_accept tt round_at_accept)

Reach-BothAwake_example :
    (more : List Frame) × (r : Served ItimerSpec (SctpThread ItimerSpec)) × Sound
      (more ++ [])
      connected.net.udp
    × IsSound connected.can.frame_buffer []
    × LostOnTheWay gettime settime
        (λ ts fd. refl)
        nothing_written
        (λ bytes. none)
        connects_once
        more
    × (can_round gettime settime nothing_written
          (sctp_thread gettime settime)
          (ready none (some cut))
          connected.can
          connected.net
        ≡ some r)
Reach-BothAwake_example =
    Reach-BothAwake gettime settime (λ ts fd. refl) nothing_written (λ bytes. none) [] unconnected
      connected none (some cut) (λ f. refl) unconnected-BothAwake connects_once

-- A client connects, and ends the connection.
abbrev comes_and_goes : List Events
comes_and_goes =
    record { at_server = accepted 3; at_client = connect_failed; at_select = wait_failed false }
    ∷ record {
      at_server = no_client;
      at_client = connect_failed;
      at_select = ready_net none (some closed);
    }
    ∷ []

abbrev left : Ran ItimerSpec (CanThread ItimerSpec)
left = record {
  calls = opens ∷ closes ∷ [];
  thread = record (wait_for_client (accepted 3) waits) { connected = false };
  peer = can;
}

ran :
    run_loop gettime settime (can_thread gettime settime) (λ bytes. none) comes_and_goes waits can
    ≡ some left
unfolding run_loop run_round serve serve_timer serve_socket disconnect round_calls server_calls
    serve_calls message_calls wait_for_client connect_client sctp_init udp_init Option.bind
ran = refl

shutdown_calls_lem_example :
    (run_calls left.calls false ≡ some false)
    × (run_calls (left.calls ++ shutdown_calls) false ≡ none)
unfolding wait_for_client sctp_init
shutdown_calls_lem_example =
    shutdown_calls_lem gettime settime (can_thread gettime settime) (λ bytes. none) comes_and_goes
      waits can left refl ran

-- `-S s`.
abbrev server_options : List (ℕ × List ℕ)
server_options = (b'S', b's' ∷ []) ∷ []

abbrev server_config : Config
server_config = record defaults { sctp_role = server; use_sctp = true }

accepted_options : parse_options true (λ text. 0) server_options ≡ goes_on server_config
unfolding parse_options read_options set_option set_role first_of check_options has_peer is_server
accepted_options = refl

no_table : load_table (λ text. none) (λ text. none) (λ name. none) server_config ≡ goes_on []
unfolding load_table no_text
no_table = refl

abbrev fresh : SctpThread ItimerSpec
fresh =
    let t = sctp_init off off new_buffer 3 false false server in
    record t { udp = configure off off [] server_config t.udp }

abbrev started : SctpThread ItimerSpec
started = record fresh { udp = record fresh.udp { check_peer = false } }

over : (set_up off off off [] 3 server_config).0 ≡ over_sctp fresh
unfolding set_up net_thread
over = refl

starts : start true fresh ≡ some started
unfolding start sctp_init
starts = refl

start-BothAwake_example :
    BothAwake gettime settime [] (record {
      can = can_arm gettime settime (set_up off off off [] 3 server_config).1;
      net = arm gettime settime started;
    })
    × (0 < get_value gettime settime (arm gettime settime started).udp.transmit_timer)
    × (started.connected ≡ false)
    × (started.udp.check_peer ≡ false)
start-BothAwake_example =
    start-BothAwake gettime settime (λ ts fd. refl) true (λ text. 0) (λ text. none) (λ text. none)
      (λ name. none) off off off server_options server_config [] 3 true fresh started
      (λ text v e. absurd (cc)) accepted_options no_table over starts
