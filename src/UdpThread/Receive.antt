-- ===== src/UdpThread/Receive.antt =====
-- `UDPThread::parsePacket` of udpthread.cpp: a packet from the network goes to the peer, frame by frame.
use cannelloni.Prelude.{
  ℕ, ◌+◌, ◌%◌, ◌^◌, ◌≤◌, ◌≡◌, refl, sym, ap, subst, ◌∙◌, inl, inr, Bool, true, false, not, ◌&&◌,
  Option, none, some, List, ◌∷◌, ◌==◌, if◌then◌else◌, Bool-cases, length,
}
use cannelloni.Frame.{Frame}
use cannelloni.FrameBuffer.Invariant.{IsSound}
use cannelloni.Connection.{ConnectionThread, IsLawful, request, give_back}
use cannelloni.Connection.Keeps.{IsSound-same_addr, request-IsSound, give_back-IsSound}
use cannelloni.Packet.Outcome.{Outcome, Fault, ok, threw, fault}
use cannelloni.Packet.Post.{Post}
use cannelloni.Packet.Safety.{Keeps, Given, parse_frames-Post}
use cannelloni.Packet.Parse.{parse_frames}
use cannelloni.UdpThread.{UdpThread}

unfoldable pub count_packet : {Fd : Type 0} → UdpThread Fd → UdpThread Fd
count_packet t = record t { rx_count = (t.rx_count + 1) % 2 ^ 64 }

-- The two callbacks of parseFrames. Their state is the peer, or `none` after a fault in its buffer.
module _ {P : Type 0} (peer : ConnectionThread P) where
  unfoldable pub given : Option (Option Frame × P) → Option Frame × Option P
  given none = (none, none)
  given (some (r, p)) = (r, some p)

  unfoldable pub allocator : Option P → Option Frame × Option P
  allocator none = (none, none)
  allocator (some p) = given (request peer p)

  unfoldable pub receiver : Frame → Bool → Option P → Option P
  receiver f success none = none
  receiver f true (some p) = some (peer.transmit_frame f p)
  receiver f false (some p) = some (give_back peer f p)

  -- Whether an exception was caught, the thread, and its peer.
  unfoldable pub finish :
      {Fd : Type 0}
      → UdpThread Fd
      → Outcome (Option P) (Unit {0})
      → Option (Bool × UdpThread Fd × P)
  finish t (ok a none) = none
  finish t (ok a (some p)) = some (false, count_packet t, p)
  finish t (threw e none) = none
  finish t (threw e (some p)) = some (true, t, p)
  finish t (fault x) = none

  -- `convertible` tells whether inet_ntop(3) could print the address. The result is `none` at a fault.
  unfoldable pub parse_packet :
      {Fd : Type 0} → Bool → ℕ → ℕ → List ℕ → UdpThread Fd → P → Option (Bool × UdpThread Fd × P)
  unfolding finish
  parse_packet convertible client_addr len buffer t p =
      if not convertible
      then some (false, t, p)
      else if not (client_addr == t.remote_addr) && t.check_peer
      then some (false, t, p)
      else finish t (parse_frames allocator receiver len buffer (some p))

  -- The peer's buffer is sound, if there was no fault.
  abbrev PeerIsSound : List Frame → Option P → Type 0
  PeerIsSound held none = Unit {0}
  PeerIsSound held (some p) = IsSound (peer.get_frame_buffer p) held

module _ {P : Type 0} (peer : ConnectionThread P) (law : IsLawful peer) (held : List Frame) where
  -- A frame at the address is in the reader's hands.
  abbrev Lent : ℕ → Option P → Type 0
  Lent a s = (f : Frame) × (f.addr ≡ a) × PeerIsSound peer (f ∷ held) s

  given-Given :
      (r : Option (Option Frame × P)) (p : P)
      → request peer p ≡ r
      → IsSound (peer.get_frame_buffer p) held
      → Given (PeerIsSound peer held) Lent (given peer r)
  unfolding given
  given-Given none p e v = tt
  given-Given (some (none, p')) p e v = request-IsSound peer law p p' none held v e
  given-Given (some (some f, p')) p e v = (f, refl, request-IsSound peer law p p' (some f) held v e)

  allocator-Given :
      (s : Option P)
      → PeerIsSound peer held s
      → Given (PeerIsSound peer held) Lent (allocator peer s)
  unfolding allocator
  allocator-Given none v = tt
  allocator-Given (some p) v = given-Given (request peer p) p refl v

  receiver-PeerIsSound :
      (g : Frame) (b : Bool) (s : Option P)
      → Lent g.addr s
      → PeerIsSound peer held (receiver peer g b s)
  unfolding receiver
  receiver-PeerIsSound g b none q = tt
  receiver-PeerIsSound g true (some p) (f, e, v) =
      law.takes_over g held p (IsSound-same_addr _ held f g (sym e) v)
  receiver-PeerIsSound g false (some p) (f, e, v) =
      give_back-IsSound peer law g p held (IsSound-same_addr _ held f g (sym e) v)

  callbacks-Keeps : Keeps (allocator peer) (receiver peer) (PeerIsSound peer held) Lent
  callbacks-Keeps = record { gives = allocator-Given; takes = receiver-PeerIsSound }

  finish-IsSound :
      {Fd : Type 0} (F : Fault → Type 0) (t t' : UdpThread Fd) (o : Outcome (Option P) (Unit {0}))
      (caught : Bool) (p' : P)
      → Post (PeerIsSound peer held) F (λ _. PeerIsSound peer held) o
      → finish peer t o ≡ some (caught, t', p')
      → IsSound (peer.get_frame_buffer p') held
  unfolding finish
  finish-IsSound F t t' (ok a none) caught p' h e = absurd (cc)
  finish-IsSound F t t' (ok a (some p)) caught p' h e =
      let same : p ≡ p' = cc in subst (λ (q : P). IsSound (peer.get_frame_buffer q) held) same h
  finish-IsSound F t t' (threw x none) caught p' h e = absurd (cc)
  finish-IsSound F t t' (threw x (some p)) caught p' h e =
      let same : p ≡ p' = cc in subst (λ (q : P). IsSound (peer.get_frame_buffer q) held) same h
  finish-IsSound F t t' (fault x) caught p' h e = absurd (cc)

  -- Whatever a packet holds and wherever it comes from, if the receive buffer has at least five bytes:
  -- `parsePacket` leaves the frame buffer of a lawful peer sound, unless it faults. Each frame that it requested has gone to the peer, or back to the pool,
  -- also if parseFrames threw.
  pub parse_packet-IsSound :
      {Fd : Type 0} (convertible : Bool) (client_addr len : ℕ) (buffer : List ℕ)
      (t t' : UdpThread Fd) (p p' : P) (caught : Bool)
      → IsSound (peer.get_frame_buffer p) held
      → 5 ≤ length buffer
      → parse_packet peer convertible client_addr len buffer t p ≡ some (caught, t', p')
      → IsSound (peer.get_frame_buffer p') held
  unfolding parse_packet
  parse_packet-IsSound {Fd} convertible client_addr len buffer t t' p p' caught v long e =
      let kept : p ≡ p' → IsSound (peer.get_frame_buffer p') held =
        λ same. subst (λ (q : P). IsSound (peer.get_frame_buffer q) held) same v in
      elim (Bool-cases (not convertible)) [
        | inl failed ↦ kept (cc (rw failed at e))
        | inr known ↦ elim (Bool-cases (not (client_addr == t.remote_addr) && t.check_peer)) [
          | inl foreign ↦ kept (cc (rw (known, foreign) at e))
          | inr ours ↦
              finish-IsSound _ t t' _ caught p'
                (parse_frames-Post (allocator peer) (receiver peer) (PeerIsSound peer held) Lent
                  callbacks-Keeps len buffer (some p) v long)
                (rw (known, ours) at e)
        ]
      ]

module _ {Fd P : Type 0} (peer : ConnectionThread P) where
  -- What counting a packet does not change, `parsePacket` leaves as it was.
  module _ {X : Type 0} (part : UdpThread Fd → X)
      (counts : (t : UdpThread Fd) → part (count_packet t) ≡ part t) where
    finish-part :
        (t t' : UdpThread Fd) (o : Outcome (Option P) (Unit {0})) (caught : Bool) (p' : P)
        → finish peer t o ≡ some (caught, t', p')
        → part t' ≡ part t
    unfolding finish
    finish-part t t' (ok a none) caught p' e = absurd (cc)
    finish-part t t' (ok a (some p)) caught p' e =
        let same : count_packet t ≡ t' = cc in ap part (sym same) ∙ counts t
    finish-part t t' (threw x none) caught p' e = absurd (cc)
    finish-part t t' (threw x (some p)) caught p' e = let same : t ≡ t' = cc in ap part (sym same)
    finish-part t t' (fault x) caught p' e = absurd (cc)

    pub parse_packet-part :
        (convertible : Bool) (client_addr len : ℕ) (buffer : List ℕ) (t t' : UdpThread Fd)
        (p p' : P) (caught : Bool)
        → parse_packet peer convertible client_addr len buffer t p ≡ some (caught, t', p')
        → part t' ≡ part t
    unfolding parse_packet
    parse_packet-part convertible client_addr len buffer t t' p p' caught e =
        let kept : t ≡ t' → part t' ≡ part t = λ same. ap part (sym same) in
        elim (Bool-cases (not convertible)) [
          | inl failed ↦ kept (cc (rw failed at e))
          | inr known ↦ elim (Bool-cases (not (client_addr == t.remote_addr) && t.check_peer)) [
            | inl foreign ↦ kept (cc (rw (known, foreign) at e))
            | inr ours ↦ finish-part t t' _ caught p' (rw (known, ours) at e)
          ]
        ]

  pub parse_packet-frame_buffer :
      (convertible : Bool) (client_addr len : ℕ) (buffer : List ℕ) (t t' : UdpThread Fd) (p p' : P)
      (caught : Bool)
      → parse_packet peer convertible client_addr len buffer t p ≡ some (caught, t', p')
      → t'.frame_buffer ≡ t.frame_buffer
  unfolding count_packet
  parse_packet-frame_buffer convertible client_addr len buffer t t' p p' caught e =
      parse_packet-part (λ (u : UdpThread Fd). u.frame_buffer) (λ u. refl) convertible client_addr
        len buffer t t' p p' caught e
