-- ===== src/UdpThread/Deliver.antt =====
-- `UDPThread::parsePacket` of udpthread.cpp on a packet that `buildPacket` wrote: what the peer gets.
use cannelloni.Prelude.{
  ℕ, ◌^◌, ◌≤◌, ◌<◌, ◌≡◌, refl, sym, ap, subst, ◌∙◌, inl, inr, true, false, Option, none, some, List,
  [], ◌∷◌, ◌++◌, append-nil, append_assoc, arith, ==_refl, Option-cases, length, take, drop, All,
  length-append, length-take, length-drop, take-append,
}
use cannelloni.Frame.{Frame, IsValid, canfd_len, is_fd}
use cannelloni.FrameBuffer.{FrameBuffer, new_frame, request_frame, insert_frame}
use cannelloni.FrameBuffer.Everywhere.{
  Everywhere, Given, GivesGood, request_frame-GivesGood, insert_frame-Everywhere,
  request_frame-pool,
}
use cannelloni.Connection.{ConnectionThread, request}
use cannelloni.Packet.Build.{header}
use cannelloni.Packet.Outcome.{ok}
use cannelloni.Packet.Wire.{wire, wires, data_section}
use cannelloni.Packet.Parse.{parse_frames}
use cannelloni.Packet.Deliver.{deliver-cons, fill, deliver, AllocatesFrames}
use cannelloni.Packet.Fields.{canfd_len-cong}
use mathlib.Core.Path.{ap₂}
use cannelloni.Packet.RoundTrip.{parse_frames-wires}
use cannelloni.UdpThread.{UdpThread}
use cannelloni.UdpThread.Receive.{given, allocator, receiver, finish, count_packet, parse_packet}

-- The frame's array has 64 bytes, as in `canfd_frame`.
abbrev pub IsWhole : Frame → Type 0
IsWhole g = length g.payload ≡ 64

-- Frames of the pool with the content of those that were sent.
unfoldable pub fills : List Frame → List Frame → List Frame
fills [] gs = []
fills (f ∷ fs) [] = []
fills (f ∷ fs) (g ∷ gs) = fill f g ∷ fills fs gs

fill-IsWhole : (f g : Frame) → IsValid f → IsWhole g → IsWhole (fill f g)
unfolding fill
fill-IsWhole f g v w = ground (
  arith,
  v.payload_size,
  v.len_fits,
  length-append (take (canfd_len f) f.payload) (drop (canfd_len f) g.payload),
  length-take (canfd_len f) f.payload,
  length-drop (canfd_len f) g.payload,
)

is_fd-fill : (f g : Frame) → is_fd (fill f g) ≡ is_fd f
unfolding fill
is_fd-fill f g = refl

-- The wire carries the same bytes for the frame that was received.
wire-fill : (f g : Frame) → IsValid f → wire (fill f g) ≡ wire f
unfolding fill wire data_section
wire-fill f g v = ground (
  arith,
  canfd_len-cong f (fill f g) refl,
  length-take (canfd_len f) f.payload (omega (arith, v.payload_size, v.len_fits)),
  take-append (take (canfd_len f) f.payload) (drop (canfd_len f) g.payload) (canfd_len f),
)

pub wires-fills :
    (fs gs : List Frame) → All IsValid fs → length fs ≤ length gs → wires (fills fs gs) ≡ wires fs
unfolding wires fills
wires-fills [] gs vs room = refl
wires-fills (f ∷ fs) [] vs room = absurd (omega arith)
wires-fills (f ∷ fs) (g ∷ gs) (v, vs) room =
    ap₂ ◌++◌ (wire-fill f g v) (wires-fills fs gs vs (omega arith))

-- What a peer's `transmitFrame` does to its buffer, apart from timers.
pub record Appends {P : Type 0} (c : ConnectionThread P) : Type 0 where
  pub get_set : (b : FrameBuffer) (p : P) → c.get_frame_buffer (c.set_frame_buffer b p) ≡ b
  pub appends :
      (f : Frame) (p : P)
      → c.get_frame_buffer (c.transmit_frame f p) ≡ insert_frame f (c.get_frame_buffer p)

module _ {P : Type 0} (peer : ConnectionThread P) (law : Appends peer) where
  -- Each frame in the peer's buffer is whole.
  abbrev pub HasWholeFrames : Option P → Type 0
  HasWholeFrames none = Unit {0}
  HasWholeFrames (some p) = Everywhere IsWhole (peer.get_frame_buffer p)

  request-pool :
      (p : P) (g : Frame) (gs : List Frame)
      → (peer.get_frame_buffer p).frame_pool ≡ g ∷ gs
      → request peer p
        ≡ some
            (some g, peer.set_frame_buffer (record (peer.get_frame_buffer p) { frame_pool = gs }) p)
  unfolding request
  request-pool p g gs e = rw (request_frame-pool true (peer.get_frame_buffer p) g gs e) refl

  request-IsWhole :
      (p p' : P) (g : Frame)
      → Everywhere IsWhole (peer.get_frame_buffer p)
      → request peer p ≡ some (some g, p')
      → IsWhole g × Everywhere IsWhole (peer.get_frame_buffer p')
  unfolding request new_frame
  request-IsWhole p p' g e q = elim (Option-cases (request_frame true (peer.get_frame_buffer p))) [
    | inl failed ↦ absurd (cc (rw failed at q))
    | inr ((r, b), taken) ↦
        let good : GivesGood IsWhole (some (r, b)) =
          subst (GivesGood IsWhole) taken
            (request_frame-GivesGood IsWhole (λ a. refl) true (peer.get_frame_buffer p) e) in
        let same : r ≡ some g = cc (rw taken at q) in
        let same_peer : peer.set_frame_buffer b p ≡ p' = cc (rw taken at q) in
        (
          subst (Given IsWhole) same good.0,
          subst (λ (x : P). Everywhere IsWhole (peer.get_frame_buffer x)) same_peer
              (rw (law.get_set b p) good.1),
        )
  ]

  callbacks-AllocatesFrames : AllocatesFrames (allocator peer) (receiver peer) HasWholeFrames
  unfolding allocator given receiver
  callbacks-AllocatesFrames none s' g c e = absurd (cc)
  callbacks-AllocatesFrames (some p) s' g c e = go (request peer p) refl e
    where
      go :
          (r : Option (Option Frame × P))
          → request peer p ≡ r
          → given peer r ≡ (some g, s')
          → (length g.payload ≡ 64)
            × ((f : Frame) → IsValid f → HasWholeFrames (receiver peer (fill f g) true s'))
      go none q e = absurd (cc)
      go (some (none, p')) q e = absurd (cc)
      go (some (some h, p')) q e =
          let same : h ≡ g = cc in
          let same_state : some p' ≡ s' = cc in
          let (whole, rest) = request-IsWhole p p' h c q in
          (
            subst IsWhole same whole,
            λ f v.
                subst (λ (x : Option P). HasWholeFrames (receiver peer (fill f g) true x))
                  same_state
                  (rw (law.appends (fill f g) p') (
                    insert_frame-Everywhere IsWhole (fill f g) (peer.get_frame_buffer p')
                      (fill-IsWhole f g v (subst IsWhole same whole)) rest)),
          )

  -- What `set_frame_buffer` and `transmitFrame` leave alone in the peer.
  module _ {A : Type 0} (view : P → A)
      (view_set : (b : FrameBuffer) (p : P) → view (peer.set_frame_buffer b p) ≡ view p)
      (view_transmit : (f : Frame) (p : P) → view (peer.transmit_frame f p) ≡ view p) where
    -- The peer with the frames `fs`, in memory of its pool `gs`.
    abbrev pub Delivered : List Frame → List Frame → P → P → Type 0
    Delivered fs gs p p' =
        ((peer.get_frame_buffer p').buffer ≡ (peer.get_frame_buffer p).buffer ++ fills fs gs)
        × ((peer.get_frame_buffer p').frame_pool ≡ drop (length fs) gs)
        × (view p' ≡ view p)

    -- The peer that has taken over its first frame.
    after_one : Frame → Frame → List Frame → P → P
    after_one f g gs p =
        peer.transmit_frame (fill f g)
          (peer.set_frame_buffer (record (peer.get_frame_buffer p) { frame_pool = gs }) p)

    after_one_lem :
        (f g : Frame) (gs : List Frame) (p : P)
        → peer.get_frame_buffer (after_one f g gs p)
          ≡ insert_frame (fill f g) (record (peer.get_frame_buffer p) { frame_pool = gs })
    unfolding after_one
    after_one_lem f g gs p =
        law.appends (fill f g) _ ∙ ap (insert_frame (fill f g)) (law.get_set _ p)

    deliver_one :
        (f g : Frame) (fs gs : List Frame) (p : P)
        → (peer.get_frame_buffer p).frame_pool ≡ g ∷ gs
        → deliver (allocator peer) (receiver peer) (f ∷ fs) (some p)
          ≡ deliver (allocator peer) (receiver peer) fs (some (after_one f g gs p))
    unfolding allocator given receiver after_one
    deliver_one f g fs gs p e =
        deliver-cons (allocator peer) (receiver peer) f g fs (some p)
          (some (peer.set_frame_buffer (record (peer.get_frame_buffer p) { frame_pool = gs }) p))
          (rw (request-pool p g gs e) refl)

    deliver-Delivered :
        (fs gs : List Frame) (p : P)
        → (peer.get_frame_buffer p).frame_pool ≡ gs
        → length fs ≤ length gs
        → (p' : P) × (deliver (allocator peer) (receiver peer) fs (some p) ≡ ok tt (some p'))
          × Delivered fs gs p p'
    unfolding fills
    deliver-Delivered [] gs p e room =
        (p, unfold deliver in refl, (sym (append-nil (peer.get_frame_buffer p).buffer), e, refl))
    deliver-Delivered (f ∷ fs) [] p e room = absurd (omega arith)
    deliver-Delivered (f ∷ fs) (g ∷ gs) p e room =
        let now = after_one_lem f g gs p in
        let pool : (peer.get_frame_buffer (after_one f g gs p)).frame_pool ≡ gs =
          ap (λ (b : FrameBuffer). b.frame_pool) now ∙ (unfold insert_frame in refl) in
        let buffer : (peer.get_frame_buffer (after_one f g gs p)).buffer
            ≡ (peer.get_frame_buffer p).buffer ++ (fill f g ∷ []) =
          ap (λ (b : FrameBuffer). b.buffer) now ∙ (unfold insert_frame in refl) in
        let (p', done, (buffer', pool', view')) =
          deliver-Delivered fs gs (after_one f g gs p) pool (omega arith) in
        (
          p',
          deliver_one f g fs gs p e ∙ done,
          (
            buffer'
                ∙ ap (λ (b : List Frame). b ++ fills fs gs) buffer
                ∙ append_assoc (peer.get_frame_buffer p).buffer (fill f g ∷ []) (fills fs gs),
            pool',
            view' ∙ (unfold after_one in (view_transmit (fill f g) _ ∙ view_set _ p)),
          ),
        )

    -- A packet in the writer's format, from the right peer, for a peer with a pool of enough frames:
    -- `parsePacket` catches nothing, and hands over each frame, in order.
    pub parse_packet-Delivered :
        {Fd : Type 0} (t : UdpThread Fd) (p : P) (seq_no : ℕ) (fs : List Frame) (padding : List ℕ)
        → All IsValid fs
        → length fs < 2 ^ 16
        → length fs ≤ length (peer.get_frame_buffer p).frame_pool
        → Everywhere IsWhole (peer.get_frame_buffer p)
        → (p' : P) × (parse_packet peer true t.remote_addr
              (length (header seq_no (length fs) ++ wires fs))
              ((header seq_no (length fs) ++ wires fs) ++ padding)
              t
              p
            ≡ some (false, count_packet t, p'))
          × Delivered fs (peer.get_frame_buffer p).frame_pool p p'
    unfolding parse_packet finish
    parse_packet-Delivered t p seq_no fs padding vs count room whole =
        let (p', done, now) =
          deliver-Delivered fs (peer.get_frame_buffer p).frame_pool p refl room in
        let read : parse_frames (allocator peer) (receiver peer)
              (length (header seq_no (length fs) ++ wires fs))
              ((header seq_no (length fs) ++ wires fs) ++ padding) (some p)
            ≡ ok tt (some p') =
          parse_frames-wires (allocator peer) (receiver peer) HasWholeFrames
            callbacks-AllocatesFrames seq_no fs padding (some p) vs whole count
          ∙ done in
        (p', rw (==_refl t.remote_addr, read) refl, now)
