-- ===== src/System/Sctp/Start.antt =====
-- From the command line of cannelloni.cpp to the loops of the two threads, over SCTP.
use cannelloni.Prelude.{
  ℕ, ◌^◌, ◌<◌, ◌≡◌, refl, sym, ap, subst, ◌∙◌, inl, inr, Bool, false, Option, some, List, [],
  Bool-cases,
}
use cannelloni.FrameBuffer.Invariant.{IsSound}
use cannelloni.Timer.{ItimerSpec, get_value}
use cannelloni.Timer.Laws.{ReadsBack}
use cannelloni.CanThread.Start.{arm as can_arm}
use cannelloni.UdpThread.{UdpThread}
use cannelloni.UdpThread.Run.{arm as udp_arm}
use cannelloni.SctpThread.{SctpThread, start, arm, server, client}
use cannelloni.SctpThread.{init as sctp_init}
use cannelloni.Main.{Config, goes_on, parse_options}
use cannelloni.Main.Setup.{over_sctp, load_table, set_up, net_thread}
use cannelloni.Main.Ready.{udp_part}
use cannelloni.System.Start.{at_loops, set_up-IsAwake}
use cannelloni.System.Alarm.{IsAwake as AwakeOverUdp}
use cannelloni.CanThread.{CanThread}
use cannelloni.System.Sctp.{IsAwake, BothAwake}

start_lem :
    {Fd : Type 0} (bound : Bool) (t t' : SctpThread Fd)
    → start bound t ≡ some t'
    → record t { udp = record t.udp { check_peer = false } } ≡ t'
unfolding start
start_lem bound t t' e = by_role t.role refl
  where
    by_role :
        (role : _) → t.role ≡ role → record t { udp = record t.udp { check_peer = false } } ≡ t'
    by_role server is = elim (Bool-cases bound) [
      | inl fine ↦ cc (rw (is, fine) at e)
      | inr fails ↦ absurd (cc (rw (is, fails) at e))
    ]
    by_role client is = cc (rw is at e)

set_up-connected :
    {Fd : Type 0} (transmit_timer block_timer can_timer : Fd) (table : List (ℕ × ℕ)) (addr : ℕ)
    (c : Config) (t : SctpThread Fd)
    → (set_up transmit_timer block_timer can_timer table addr c).0 ≡ over_sctp t
    → t.connected ≡ false
unfolding set_up net_thread sctp_init
set_up-connected transmit_timer block_timer can_timer table addr c t e =
    elim (Bool-cases c.use_sctp) [ inl on ↦ cc (rw on at e) | inr off ↦ absurd (cc (rw off at e)) ]

-- What holds over UDP holds of a thread over SCTP, whose `start` has set `m_checkPeer`.
started-IsAwake :
    {Fd : Type 0} (gettime : Fd → ItimerSpec) (settime : ItimerSpec → Fd → Fd)
    (law : ReadsBack gettime settime) (can : CanThread Fd) (u : UdpThread Fd)
    → AwakeOverUdp gettime settime law [] (record { can = can; net = udp_arm gettime settime u })
    → IsAwake gettime settime [] (udp_arm gettime settime (record u { check_peer = false }))
      × IsSound can.frame_buffer []
unfolding udp_arm
started-IsAwake gettime settime law can u
      (((sound, tracked), own, some_frames, limited), w, small) =
    (
      record {
        sound = (sound, tracked);
        some_frames = some_frames;
        limited = limited;
        small = small;
        waits = record {
          waits = w.waits;
          periodic = w.periodic;
          timeout_range = w.timeout_range;
          table = w.table;
        };
      },
      own,
    )

-- Whatever the command line and the file of timeouts: if main comes to start a thread over SCTP, the start
-- succeeds, and both threads come to their loops, then both frame buffers are sound, no frame is lost, the
-- buffer at the network has frames and a limit below 2 ^ 55, the transmit timer runs with an interval that
-- is not zero, there is no connection yet, and the address of a packet's sender is not checked. This is
-- for a timer that gives back what was set, and for values of the file that fit 32 bits.
pub start-BothAwake :
    {Fd : Type 0} (gettime : Fd → ItimerSpec) (settime : ItimerSpec → Fd → Fd)
    (law : ReadsBack gettime settime) (sctp_support : Bool) (strtoul : List ℕ → ℕ)
    (read_key read_value : List ℕ → Option ℕ) (open_file : List ℕ → Option (List (List ℕ)))
    (transmit_timer block_timer can_timer : Fd) (os : List (ℕ × List ℕ)) (c : Config)
    (table : List (ℕ × ℕ)) (addr : ℕ) (bound : Bool) (t t' : SctpThread Fd)
    → ((text : List ℕ) (v : ℕ) → read_value text ≡ some v → v < 2 ^ 32)
    → parse_options sctp_support strtoul os ≡ goes_on c
    → load_table read_key read_value open_file c ≡ goes_on table
    → (set_up transmit_timer block_timer can_timer table addr c).0 ≡ over_sctp t
    → start bound t ≡ some t'
    → BothAwake gettime settime [] (record {
      can = can_arm gettime settime (set_up transmit_timer block_timer can_timer table addr c).1;
      net = arm gettime settime t';
    })
      × (0 < get_value gettime settime (arm gettime settime t').udp.transmit_timer)
      × (t'.connected ≡ false)
      × (t'.udp.check_peer ≡ false)
unfolding at_loops arm udp_arm
start-BothAwake {Fd} gettime settime law sctp_support strtoul read_key read_value open_file
      transmit_timer block_timer can_timer os c table addr bound t t' narrow parsed loaded over
      started =
    let can : CanThread Fd =
      can_arm gettime settime (set_up transmit_timer block_timer can_timer table addr c).1 in
    let (awake, runs, configured) =
      set_up-IsAwake gettime settime law sctp_support strtoul read_key read_value open_file
        transmit_timer block_timer can_timer os c table addr narrow parsed loaded in
    let same : record t { udp = record t.udp { check_peer = false } } ≡ t' =
      start_lem bound t t' started in
    let part : udp_part (set_up transmit_timer block_timer can_timer table addr c).0 ≡ t.udp =
      ap udp_part over in
    let awake_here = started-IsAwake gettime settime law can t.udp (
      subst
        (λ (u : UdpThread Fd).
          AwakeOverUdp gettime settime law []
            (record { can = can; net = udp_arm gettime settime u }))
        part awake) in
    (
      subst
          (λ (x : SctpThread Fd).
            BothAwake gettime settime [] (record { can = can; net = arm gettime settime x }))
          same awake_here,
      subst
          (λ (x : SctpThread Fd).
            0 < get_value gettime settime (arm gettime settime x).udp.transmit_timer)
          same
          (subst
            (λ (u : UdpThread Fd).
              0 < get_value gettime settime (udp_arm gettime settime u).transmit_timer)
            part runs),
      ap (λ (x : SctpThread Fd). x.connected) (sym same)
          ∙ set_up-connected transmit_timer block_timer can_timer table addr c t over,
      ap (λ (x : SctpThread Fd). x.udp.check_peer) (sym same),
    )
