-- ===== src/UdpThread/Deadline.antt =====
-- `UDPThread::transmitFrame` of udpthread.cpp: when a buffered frame will be sent.
use cannelloni.Prelude.{
  ℕ, ◌+◌, ◌%◌, ◌^◌, ◌≤◌, ◌<◌, ◌≡◌, refl, inl, inr, Bool, some, List, [], ◌∷◌, ◌++◌, arith, leb,
  ◌==◌, if◌then◌else◌, Bool-cases, Option-cases, All,
}
use cannelloni.Frame.{
  Frame, arbitration_id, cannelloni_data_packet_base_size, cannelloni_frame_base_size,
}
use cannelloni.FrameBuffer.{size_mod, insert_frame, get_frame_buffer_size}
use cannelloni.Timer.{ItimerSpec, at_least_one, get_value, adjust, enable, fire, is_enabled}
use cannelloni.Timer.Laws.{ReadsBack, interval_of, adjust_lem}
use cannelloni.UdpThread.{UdpThread, find, ensure_enabled, shorten, transmit_frame}

-- The timeouts of the table are 32 bits wide.
abbrev pub InRange : List (ℕ × ℕ) → Type 0
InRange = All (λ e. e.1 < 2 ^ 32)

find-InRange :
    (id : ℕ) (table : List (ℕ × ℕ)) (value : ℕ)
    → InRange table
    → find id table ≡ some value
    → value < 2 ^ 32
unfolding find
find-InRange id [] value h e = absurd (cc)
find-InRange id ((k, v) ∷ table) value (h, hs) e = ground (arith, find-InRange id table value hs)

module _ {Fd : Type 0} (gettime : Fd → ItimerSpec) (settime : ItimerSpec → Fd → Fd)
    (law : ReadsBack gettime settime) where
  -- The timer is on.
  abbrev On : Fd → Type 0
  On fd = 0 < get_value gettime settime fd

  ensure_enabled-On :
      (fd : Fd)
      → 0 < interval_of gettime settime fd
      → interval_of gettime settime fd < 2 ^ 64
      → On (ensure_enabled gettime settime fd)
  unfolding ensure_enabled is_enabled enable get_value interval_of
  ensure_enabled-On fd h range = elim (Bool-cases (get_value gettime settime fd == 0)) [
    | inl off ↦ rw off (rw law (omega arith))
    | inr running ↦ rw running (ground arith)
  ]

  fire-value : (fd : Fd) → get_value gettime settime (fire gettime settime fd) ≡ 1
  unfolding fire at_least_one
  fire-value fd = (adjust_lem gettime settime _ 1 fd law (omega arith)).0

  -- The timer goes on, and not for longer than it did.
  shorten-On :
      (timeout entry : ℕ) (fd : Fd)
      → entry < 2 ^ 32
      → On fd
      → On (shorten gettime settime timeout (some entry) fd)
        × (get_value gettime settime (shorten gettime settime timeout (some entry) fd)
            ≤ get_value gettime settime fd)
        × (entry < timeout
            → get_value gettime settime (shorten gettime settime timeout (some entry) fd)
              ≤ at_least_one entry)
  unfolding shorten at_least_one
  shorten-On timeout entry fd range on =
      let (value, _, _) = adjust_lem gettime settime timeout entry fd law (omega arith) in
      let value' : get_value gettime settime (adjust gettime settime timeout entry fd)
          ≡ (if entry == 0 then 1 else entry) =
        value in
      ground (arith, value')

  -- The buffer when the frame is in it, and whether a packet of it would be full.
  full_now : Frame → UdpThread Fd → Bool
  full_now f t = leb t.payload_size (
      (get_frame_buffer_size (insert_frame f t.frame_buffer)
        + cannelloni_data_packet_base_size
        + cannelloni_frame_base_size)
      % size_mod)

  -- `transmitFrame` appends the frame to the buffer and leaves the timer on, so that it will expire.
  pub transmit_frame-arms :
      (f : Frame) (t : UdpThread Fd)
      → 0 < interval_of gettime settime t.transmit_timer
      → interval_of gettime settime t.transmit_timer < 2 ^ 64
      → InRange t.timeout_table
      → ((transmit_frame gettime settime f t).frame_buffer.buffer
          ≡ t.frame_buffer.buffer ++ (f ∷ []))
        × (0 < get_value gettime settime (transmit_frame gettime settime f t).transmit_timer)
  unfolding transmit_frame insert_frame full_now
  transmit_frame-arms f t positive range table =
      let on = ensure_enabled-On t.transmit_timer positive range in
      let fired = fire-value (ensure_enabled gettime settime t.transmit_timer) in
      (
        refl,
        elim (Bool-cases (full_now f t)) [
          | inl full ↦ rw full (omega (arith, fired))
          | inr some_room ↦ elim (Option-cases (find (arbitration_id f.can_id) t.timeout_table)) [
            | inl missing ↦ rw (some_room, missing) (unfold shorten in on)
            | inr (n, found) ↦
                rw (some_room, found)
                  (shorten-On t.timeout n _ (find-InRange _ t.timeout_table n table found) on).0
          ]
        ],
      )

  -- `transmitFrame` of a frame whose identifier has a timeout in the table, shorter than the general one,
  -- leaves the transmit timer on, and set to expire by the time that this timeout is over, where 0
  -- stands for a microsecond. This is for a timer that gives back what was set, with an interval that is
  -- not zero and fits 64 bits, and for a table whose timeouts fit 32 bits.
  pub transmit_frame-deadline :
      (f : Frame) (t : UdpThread Fd) (n : ℕ)
      → 0 < interval_of gettime settime t.transmit_timer
      → interval_of gettime settime t.transmit_timer < 2 ^ 64
      → InRange t.timeout_table
      → find (arbitration_id f.can_id) t.timeout_table ≡ some n
      → n < t.timeout
      → (0 < get_value gettime settime (transmit_frame gettime settime f t).transmit_timer)
        × (get_value gettime settime (transmit_frame gettime settime f t).transmit_timer
            ≤ at_least_one n)
  unfolding transmit_frame full_now at_least_one
  transmit_frame-deadline f t n positive range table found earlier =
      let on = ensure_enabled-On t.transmit_timer positive range in
      let fired = fire-value (ensure_enabled gettime settime t.transmit_timer) in
      elim (Bool-cases (full_now f t)) [
        | inl full ↦ rw full (omega (arith, fired), ground (arith, fired))
        | inr some_room ↦
            let (stays_on, le, soon) =
              shorten-On t.timeout n (ensure_enabled gettime settime t.transmit_timer)
                (find-InRange _ t.timeout_table n table found) on in
            rw (some_room, found) (stays_on, soon earlier)
      ]
