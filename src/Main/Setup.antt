-- ===== src/Main/Setup.antt =====
-- The part of main in cannelloni.cpp that sets the threads up. What a file holds, inet_pton(3) and the
-- conversions of the file's columns are parameters; the start of the threads and what follows is
-- in Main/Life.
use cannelloni.Prelude.{
  ℕ, Bool, true, false, Option, none, some, List, [], ◌∷◌, ◌==◌, if◌then◌else◌,
}
use mathlib.Core.Option
use cannelloni.FrameBuffer.{FrameBuffer}
use cannelloni.FrameBuffer.{init as buffer_init}
use cannelloni.TimeoutTable.Stream.{
  CsvMapParser, new_parser, open_stream, close_stream, parse_stream,
}
use cannelloni.CanThread.{CanThread}
use cannelloni.CanThread.Start.{init as can_init}
use cannelloni.UdpThread.{UdpThread, set_timeout, set_timeout_table}
use cannelloni.UdpThread.{init as udp_init}
use cannelloni.SctpThread.{SctpThread}
use cannelloni.SctpThread.{init as sctp_init}
use cannelloni.Main.{failure, Result, goes_on, exits, Config}

-- A text in an array, up to the byte that ends it; `none` if there is none, so that a reader leaves the
-- array.
unfoldable pub text_of : List ℕ → Option (List ℕ)
text_of [] = none
text_of (c ∷ cs) = if c == 0 then some [] else Option.map (λ s. c ∷ s) (text_of cs)

-- `sin_addr` after bzero and inet_pton, whose result is not looked at.
unfoldable pub address : (List ℕ → Option ℕ) → List ℕ → Option ℕ
address inet_pton array =
    Option.map (λ s. elim (inet_pton s) [ none ↦ 0 | some addr ↦ addr ]) (text_of array)

unfoldable pub no_text : List ℕ → Bool
no_text [] = true
no_text (c ∷ cs) = false

-- The table of timeouts, if a file was named.
module _ (read_key read_value : List ℕ → Option ℕ)
    (open_file : List ℕ → Option (List (List ℕ))) where
  -- `parse`, `close` and `read`, when the file is open.
  unfoldable pub parsed : Bool × CsvMapParser ℕ ℕ → Result (List (ℕ × ℕ))
  parsed (good, p) =
      let (closed, p') = close_stream p in
      if good then (if closed then goes_on p'.entries else exits failure) else exits failure

  unfoldable pub opened : Bool × CsvMapParser ℕ ℕ → Result (List (ℕ × ℕ))
  unfolding parsed
  opened (good, p) =
      if good then parsed (parse_stream ◌==◌ read_key read_value p) else exits failure

  unfoldable pub parse_file : Option (List (List ℕ)) → Result (List (ℕ × ℕ))
  unfolding opened
  parse_file file = opened (open_stream file new_parser)

  unfoldable pub load_table : Config → Result (List (ℕ × ℕ))
  load_table c =
      if no_text c.timeout_table_file
      then goes_on []
      else parse_file (open_file c.timeout_table_file)

-- The thread at the network.
pub data Network (Fd : Type 0) : Type 0 where
  over_udp : UdpThread Fd → Network Fd
  over_sctp : SctpThread Fd → Network Fd

-- The buffer of each thread.
abbrev pub new_buffer : FrameBuffer
new_buffer = buffer_init 1000 16000

module _ {Fd : Type 0} (transmit_timer block_timer : Fd) where
  unfoldable pub configure : List (ℕ × ℕ) → Config → UdpThread Fd → UdpThread Fd
  configure table c t = set_timeout c.buffer_timeout (set_timeout_table table t)

  unfoldable pub net_thread : List (ℕ × ℕ) → ℕ → Config → Network Fd
  unfolding configure
  net_thread table remote_addr c =
      if c.use_sctp
      then (let t =
            sctp_init transmit_timer block_timer new_buffer remote_addr c.sort_udp
              c.remote_ip_supplied c.sctp_role in
          over_sctp (record t { udp = configure table c t.udp }))
      else over_udp (
          configure table c
            (udp_init transmit_timer block_timer new_buffer remote_addr c.sort_udp true))

  -- The two threads, before they are started.
  unfoldable pub set_up : Fd → List (ℕ × ℕ) → ℕ → Config → Network Fd × CanThread Fd
  set_up can_timer table remote_addr c =
      (net_thread table remote_addr c, can_init can_timer new_buffer)
