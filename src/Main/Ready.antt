-- ===== src/Main/Ready.antt =====
-- What the set-up of cannelloni.cpp gives to the threads.
use cannelloni.Prelude.{
  ℕ, ◌^◌, ◌≤◌, ◌<◌, ◌≡◌, refl, sym, subst, inl, inr, Bool, Option, none, some, List, [], arith,
  ◌==◌, Bool-cases,
}
use cannelloni.FrameBuffer.{FrameBuffer, resize_pool}
use cannelloni.FrameBuffer.{init as buffer_init}
use cannelloni.FrameBuffer.Invariant.{IsSound, init-IsSound}
use cannelloni.FrameBuffer.Flush.{IsTracked}
use cannelloni.FrameBuffer.Size.{total_size}
use cannelloni.TimeoutTable.{parse, parse_lines}
use cannelloni.TimeoutTable.Stream.{open_stream, close_stream, parse_stream}
use cannelloni.TimeoutTable.Range.{parse_lines-InRange}
use cannelloni.CanThread.Start.{init as can_init}
use cannelloni.UdpThread.{UdpThread, set_timeout, set_timeout_table}
use cannelloni.UdpThread.{init as udp_init}
use cannelloni.UdpThread.Deadline.{InRange}
use cannelloni.SctpThread.{init as sctp_init}
use cannelloni.Main.{goes_on, Config, parse_options}
use cannelloni.Main.Options.{parse_options-Runs}
use cannelloni.Main.Setup.{
  no_text, opened, parsed, parse_file, load_table, Network, over_udp, over_sctp, new_buffer,
  configure, net_thread, set_up,
}

module _ (read_key read_value : List ℕ → Option ℕ)
    (narrow : (text : List ℕ) (v : ℕ) → read_value text ≡ some v → v < 2 ^ 32)
    (open_file : List ℕ → Option (List (List ℕ))) where
  parse_file-InRange :
      (file : Option (List (List ℕ))) (table : List (ℕ × ℕ))
      → parse_file read_key read_value open_file file ≡ goes_on table
      → InRange table
  unfolding parse_file opened parsed open_stream parse_stream close_stream parse
  parse_file-InRange none table e = absurd (cc)
  parse_file-InRange (some lines) table e =
      elim (Bool-cases (parse_lines ◌==◌ read_key read_value lines []).success) [
        | inl good ↦
            let same : (parse_lines ◌==◌ read_key read_value lines []).entries ≡ table =
              cc (rw good at e) in
            subst InRange same (parse_lines-InRange read_key read_value narrow lines [] tt)
        | inr bad ↦ absurd (cc (rw bad at e))
      ]

  load_table-InRange :
      (c : Config) (table : List (ℕ × ℕ))
      → load_table read_key read_value open_file c ≡ goes_on table
      → InRange table
  unfolding load_table
  load_table-InRange c table e = elim (Bool-cases (no_text c.timeout_table_file)) [
    | inl unnamed ↦ let same : [] ≡ table = cc (rw unnamed at e) in subst InRange same tt
    | inr named ↦ parse_file-InRange (open_file c.timeout_table_file) table (rw named at e)
  ]

-- The part of the thread at the network that it has in common with a UDPThread.
abbrev pub udp_part : {Fd : Type 0} → Network Fd → UdpThread Fd
udp_part (over_udp t) = t
udp_part (over_sctp t) = t.udp

-- What the threads rely on when they start: a frame buffer that is sound, whose counters are right, that
-- is bounded below 2 ^ 55 and has frames, all of them free.
pub record IsFresh (b : FrameBuffer) : Type 0 where
  pub sound : IsSound b []
  pub tracked : IsTracked b
  pub bounded : 0 < b.max_alloc_count
  pub small : b.max_alloc_count < 2 ^ 55
  pub has_frames : 0 < b.next_addr
  pub not_waiting : b.buffer ≡ []
  pub not_sending : b.intermediate_buffer ≡ []

new_buffer-IsFresh : IsFresh new_buffer
unfolding buffer_init resize_pool IsTracked total_size
new_buffer-IsFresh = record {
  sound = init-IsSound 1000 16000 (λ p. omega arith) (omega arith);
  tracked = refl;
  bounded = omega arith;
  small = omega arith;
  has_frames = omega arith;
  not_waiting = refl;
  not_sending = refl;
}

-- What the thread at the network relies on, beside its buffer.
pub record IsConfigured {Fd : Type 0} (t : UdpThread Fd) : Type 0 where
  pub positive : 0 < t.timeout
  pub narrow : t.timeout < 2 ^ 32
  pub table : InRange t.timeout_table
  pub room : 75 ≤ t.payload_size
  pub size : t.payload_size < 2 ^ 16

net_thread-IsConfigured :
    {Fd : Type 0} (transmit_timer block_timer : Fd) (table : List (ℕ × ℕ)) (addr : ℕ) (c : Config)
    → InRange table
    → 0 < c.buffer_timeout
    → c.buffer_timeout < 2 ^ 32
    → IsConfigured (udp_part (net_thread transmit_timer block_timer table addr c))
      × ((udp_part (net_thread transmit_timer block_timer table addr c)).frame_buffer ≡ new_buffer)
unfolding net_thread configure set_timeout set_timeout_table udp_init sctp_init
net_thread-IsConfigured transmit_timer block_timer table addr c h p q =
    elim (Bool-cases c.use_sctp) [
      | inl sctp ↦ rw sctp (
        record { positive = p; narrow = q; table = h; room = omega arith; size = omega arith },
        refl,
      )
      | inr udp ↦ rw udp (
        record { positive = p; narrow = q; table = h; room = omega arith; size = omega arith },
        refl,
      )
    ]

-- Whatever the command line and the file of timeouts: if main comes to start the threads, the timeouts
-- of the thread at the network, the general one and those of the table, fit 32 bits, the general one is
-- not zero, and a packet has room for a frame of any size; both frame buffers are sound, their counters
-- are right, they have frames, and no frame waits.
pub set_up-IsFresh :
    {Fd : Type 0} (sctp_support : Bool) (strtoul : List ℕ → ℕ)
    (read_key read_value : List ℕ → Option ℕ) (open_file : List ℕ → Option (List (List ℕ)))
    (transmit_timer block_timer can_timer : Fd) (os : List (ℕ × List ℕ)) (c : Config)
    (table : List (ℕ × ℕ)) (addr : ℕ)
    → ((text : List ℕ) (v : ℕ) → read_value text ≡ some v → v < 2 ^ 32)
    → parse_options sctp_support strtoul os ≡ goes_on c
    → load_table read_key read_value open_file c ≡ goes_on table
    → IsConfigured (udp_part (set_up transmit_timer block_timer can_timer table addr c).0)
      × IsFresh (udp_part (set_up transmit_timer block_timer can_timer table addr c).0).frame_buffer
      × IsFresh (set_up transmit_timer block_timer can_timer table addr c).1.frame_buffer
unfolding set_up can_init configure
set_up-IsFresh sctp_support strtoul read_key read_value open_file transmit_timer block_timer
      can_timer os c table addr narrow parsed loaded =
    let (range, peer, positive) = parse_options-Runs sctp_support strtoul os c parsed in
    let (good, buffer) =
      net_thread-IsConfigured transmit_timer block_timer table addr c
        (load_table-InRange read_key read_value narrow open_file c table loaded) positive
        range.timeout_range in
    (good, subst IsFresh (sym buffer) new_buffer-IsFresh, new_buffer-IsFresh)
