-- ===== src/Interleaving/Rounds.antt =====
-- The functions of udpthread.cpp that System takes as one step, and single accesses.
use cannelloni.Prelude.{
  ℕ, ◌≡◌, refl, subst, inl, inr, Bool, true, false, Option, some, List, ltb, ◌==◌, Bool-cases,
  Option-cases,
}
use cannelloni.Frame.{Frame}
use cannelloni.FrameBuffer.{insert_frame, get_frame_buffer_size}
use cannelloni.Packet.Build.{build_packet}
use cannelloni.Timer.{ItimerSpec, read, is_enabled, disable}
use cannelloni.UdpThread.{
  UdpThread, transmit_frame, ensure_enabled, on_transmit_timer, prepare_buffer, send_packet,
  take_over,
}
use cannelloni.Interleaving.{
  CanAt, outside, holding, inserted, saw_on, NetAt, waiting, expired, saw_empty, saw_frames, sorted,
  Threads, saw_size, saw_timer, after_read, hasten, send_built, inserts, looks_at_timer, enables,
  hastens, reads_timer, looks_at_size, disables, swaps, sorts, builds, returns, sends, merges,
  Reach, here, next,
}

after_read-expired : (n : ℕ) → ltb 0 n ≡ true → after_read n ≡ expired
unfolding after_read
after_read-expired n e = rw e refl

after_read-waiting : (n : ℕ) → ltb 0 n ≡ false → after_read n ≡ waiting
unfolding after_read
after_read-waiting n e = rw e refl

pub saw_size-empty : (n : ℕ) → (n == 0) ≡ true → saw_size n ≡ saw_empty
unfolding saw_size
saw_size-empty n e = rw e refl

saw_size-frames : (n : ℕ) → (n == 0) ≡ false → saw_size n ≡ saw_frames
unfolding saw_size
saw_size-frames n e = rw e refl

module _ {Fd : Type 0} (gettime : Fd → ItimerSpec) (settime : ItimerSpec → Fd → Fd)
    (send : List ℕ → Option ℕ) where
  abbrev Leads : Threads Fd → Threads Fd → Type 0
  Leads = Reach gettime settime send

  pub Reach-trans : {s t u : Threads Fd} → Leads s t → Leads t u → Leads s u
  Reach-trans r here = r
  Reach-trans r (next q step) = next (Reach-trans r q) step

  -- The look at the timer, when it is known what it finds.
  look-Leads :
      (t : UdpThread Fd) (f : Frame) (at : NetAt) (on : Bool)
      → is_enabled gettime settime t.transmit_timer ≡ on
      → Leads
          (record { net = t; can_at = inserted f; net_at = at })
          (record { net = t; can_at = saw_timer on f; net_at = at })
  look-Leads t f at on e =
      subst
        (λ (b : Bool).
          Leads (record { net = t; can_at = inserted f; net_at = at })
            (record { net = t; can_at = saw_timer b f; net_at = at }))
        e (next here (looks_at_timer f refl))

  -- `if (!m_transmitTimer.isEnabled()) m_transmitTimer.enable()`.
  enable-Leads :
      (t : UdpThread Fd) (f : Frame) (at : NetAt)
      → Leads
          (record { net = t; can_at = inserted f; net_at = at })
          (record {
            net = record t { transmit_timer = ensure_enabled gettime settime t.transmit_timer };
            can_at = saw_on f;
            net_at = at;
          })
  unfolding ensure_enabled saw_timer
  enable-Leads t f at = elim (Bool-cases (is_enabled gettime settime t.transmit_timer)) [
    | inl on ↦ rw on (look-Leads t f at true on)
    | inr off ↦ rw off (next (look-Leads t f at false off) (enables f refl))
  ]

  -- `transmitFrame` is a sequence of steps of the thread at the CAN socket.
  pub transmit-Leads :
      (t : UdpThread Fd) (f g : Frame) (at : NetAt)
      → g.addr ≡ f.addr
      → Leads
          (record { net = t; can_at = holding f; net_at = at })
          (record { net = transmit_frame gettime settime g t; can_at = outside; net_at = at })
  unfolding transmit_frame hasten
  transmit-Leads t f g at same =
      next
        (Reach-trans (next here (inserts f g refl same))
          (enable-Leads (record t { frame_buffer = insert_frame g t.frame_buffer }) g at))
        (hastens g refl)

  -- Where the thread at the network stands, when nothing else changes.
  abbrev alone : UdpThread Fd → CanAt → NetAt → Threads Fd
  alone t can at = record { net = t; can_at = can; net_at = at }

  -- The place of the thread at the network, by another name.
  pub named :
      (s : Threads Fd) (t : UdpThread Fd) (can : CanAt) (at at' : NetAt)
      → at ≡ at'
      → Leads s (alone t can at)
      → Leads s (alone t can at')
  named s t can at at' e = subst (λ (x : NetAt). Leads s (alone t can x)) e

  read-Leads :
      (t : UdpThread Fd) (can : CanAt) (num_exp : Option ℕ)
      → Leads (alone t can waiting) (alone t can (after_read (read num_exp)))
  read-Leads t can num_exp = next here (reads_timer num_exp refl)

  -- The timer has expired.
  pub expire-Leads :
      (t : UdpThread Fd) (can : CanAt) (num_exp : Option ℕ)
      → ltb 0 (read num_exp) ≡ true
      → Leads (alone t can waiting) (alone t can (saw_size (get_frame_buffer_size t.frame_buffer)))
  expire-Leads t can num_exp e =
      next
        (named (alone t can waiting) t can (after_read (read num_exp)) expired
          (after_read-expired (read num_exp) e) (read-Leads t can num_exp))
        (looks_at_size refl)

  -- `swapBuffers`, and `sortIntermediateBuffer` if the user asked for it.
  take_over-Leads :
      (t : UdpThread Fd) (can : CanAt)
      → Leads (alone t can saw_frames) (alone (record t { frame_buffer = take_over t }) can sorted)
  unfolding take_over
  take_over-Leads t can = next (next here (swaps refl)) (sorts refl)

  prepare-Leads :
      (t t' : UdpThread Fd) (can : CanAt) (bytes : List ℕ)
      → prepare_buffer send t ≡ some (bytes, t')
      → Leads (alone t can saw_frames) (alone t' can waiting)
  unfolding prepare_buffer send_packet send_built
  prepare-Leads t t' can bytes e =
      elim (Option-cases
        (build_packet t.payload_size t.sequence_number (take_over t).intermediate_buffer)) [
          | inl failed ↦ absurd (cc (rw failed at e))
          | inr (p, done) ↦
              let same : send_packet send t (take_over t) p ≡ t' = cc (rw done at e) in
              subst (λ (u : UdpThread Fd). Leads (alone t can saw_frames) (alone u can waiting))
                same
                (next
                  (next (next (next (take_over-Leads t can) (builds p refl done)) (returns p refl))
                    (sends p refl))
                  (merges refl))
        ]

  -- A round for the transmit timer that does not fault, which System takes as one step, is a sequence of
  -- single accesses of the thread at the network, wherever the thread at the CAN socket stands
  -- meanwhile.
  pub on_transmit_timer-Reach :
      (t t' : UdpThread Fd) (can : CanAt) (num_exp : Option ℕ) (packets : List (List ℕ))
      → on_transmit_timer gettime settime send (read num_exp) t ≡ some (packets, t')
      → Reach gettime settime send
          (record { net = t; can_at = can; net_at = waiting })
          (record { net = t'; can_at = can; net_at = waiting })
  unfolding on_transmit_timer
  on_transmit_timer-Reach t t' can num_exp packets e = elim (Bool-cases (ltb 0 (read num_exp))) [
    | inr quiet ↦
        let same : t ≡ t' = cc (rw quiet at e) in
        subst (λ (u : UdpThread Fd). Leads (alone t can waiting) (alone u can waiting)) same
          (named (alone t can waiting) t can (after_read (read num_exp)) waiting
            (after_read-waiting (read num_exp) quiet) (read-Leads t can num_exp))
    | inl over ↦ elim (Bool-cases (get_frame_buffer_size t.frame_buffer == 0)) [
      | inl idle ↦
          let same : record t { transmit_timer = disable gettime settime t.transmit_timer } ≡ t' =
            cc (rw (over, idle) at e) in
          subst (λ (u : UdpThread Fd). Leads (alone t can waiting) (alone u can waiting)) same
            (next
              (named (alone t can waiting) t can (saw_size (get_frame_buffer_size t.frame_buffer))
                saw_empty (saw_size-empty (get_frame_buffer_size t.frame_buffer) idle)
                (expire-Leads t can num_exp over))
              (disables refl))
      | inr busy ↦ elim (Option-cases (prepare_buffer send t)) [
        | inl failed ↦ absurd (cc (rw (over, busy, failed) at e))
        | inr ((bytes, t1), done) ↦
            let same : t1 ≡ t' = cc (rw (over, busy, done) at e) in
            let looked : Leads (alone t can waiting) (alone t can saw_frames) =
              named (alone t can waiting) t can (saw_size (get_frame_buffer_size t.frame_buffer))
                saw_frames (saw_size-frames (get_frame_buffer_size t.frame_buffer) busy)
                (expire-Leads t can num_exp over) in
            subst (λ (u : UdpThread Fd). Leads (alone t can waiting) (alone u can waiting)) same
              (Reach-trans looked (prepare-Leads t t1 can bytes done))
      ]
    ]
  ]
