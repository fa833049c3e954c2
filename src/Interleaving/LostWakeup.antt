-- ===== src/Interleaving/LostWakeup.antt =====
-- A frame that comes in between the look at the size and the stop of the timer in udpthread.cpp.
use cannelloni.Prelude.{ℕ, ◌<◌, ◌≡◌, refl, true, Option, some, List, [], ◌∷◌, ◌++◌, arith, lt→ltb}
use cannelloni.Frame.{Frame}
use cannelloni.FrameBuffer.{FrameBuffer, insert_frame, request_frame, get_frame_buffer_size}
use cannelloni.Timer.{ItimerSpec, read, disable, get_value}
use cannelloni.Timer.Laws.{ReadsBack}
use cannelloni.UdpThread.{UdpThread, transmit_frame}
use cannelloni.Interleaving.{
  outside, holding, waiting, saw_empty, Threads, saw_size, holds, requests, disables, Reach, next,
}
use cannelloni.Interleaving.Rounds.{
  Reach-trans, transmit-Leads, named, expire-Leads, saw_size-empty,
}

disable-value :
    {Fd : Type 0} (gettime : Fd → ItimerSpec) (settime : ItimerSpec → Fd → Fd) (fd : Fd)
    → ReadsBack gettime settime
    → get_value gettime settime (disable gettime settime fd) ≡ 0
unfolding get_value disable
disable-value gettime settime fd law = rw law refl

-- The thread at the network waits, no byte is in its buffer, and its timer has expired. Then there is an
-- interleaving in which a frame comes in between its look at the size and its stop of the timer, that ends
-- with both threads where they were at first, the frame in the buffer, and the timer off. This is for a
-- timer that gives back what was set.
pub lost_wakeup :
    {Fd : Type 0} (gettime : Fd → ItimerSpec) (settime : ItimerSpec → Fd → Fd)
    (send : List ℕ → Option ℕ) (t : UdpThread Fd) (num_exp : Option ℕ) (f g : Frame)
    (b : FrameBuffer)
    → ReadsBack gettime settime
    → 0 < read num_exp
    → get_frame_buffer_size t.frame_buffer ≡ 0
    → request_frame true t.frame_buffer ≡ some (some f, b)
    → g.addr ≡ f.addr
    → (u : UdpThread Fd) × Reach gettime settime send
        (record { net = t; can_at = outside; net_at = waiting })
        (record { net = u; can_at = outside; net_at = waiting })
      × (u.frame_buffer.buffer ≡ b.buffer ++ (g ∷ []))
      × (get_value gettime settime u.transmit_timer ≡ 0)
unfolding transmit_frame insert_frame
lost_wakeup {Fd} gettime settime send t num_exp f g b law some_exp size given same =
    let t' = record t { frame_buffer = b } in
    let u = transmit_frame gettime settime g t' in
    let waits : Threads Fd = record { net = t; can_at = outside; net_at = waiting } in
    let size_here = get_frame_buffer_size t.frame_buffer in
    let looked : Reach gettime settime send waits
        (record { net = t; can_at = outside; net_at = saw_empty }) =
      named gettime settime send waits t outside (saw_size size_here) saw_empty
        (saw_size-empty size_here (ground (arith, size)))
        (expire-Leads gettime settime send t outside num_exp (lt→ltb _ _ some_exp)) in
    let holds_it : Reach gettime settime send waits
        (record { net = t'; can_at = holding f; net_at = saw_empty }) =
      unfold holds in next looked (requests (some f) b refl given) in
    (
      record u { transmit_timer = disable gettime settime u.transmit_timer },
      next
          (Reach-trans gettime settime send holds_it
            (transmit-Leads gettime settime send t' f g saw_empty same))
          (disables refl),
      refl,
      disable-value gettime settime u.transmit_timer law,
    )
