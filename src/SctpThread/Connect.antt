-- ===== src/SctpThread/Connect.antt =====
-- Connections of sctpthread.cpp: with whom, and what happens to the frames.
use cannelloni.Prelude.{
  ℕ, ◌≡◌, refl, sym, ap, ◌∙◌, ◌⊎◌, inl, inr, Bool, true, false, not, ◌&&◌, List, [], ◌∷◌, arith,
  ◌==◌, Bool-cases,
}
use mathlib.Core.Bool.{false≢true}
use cannelloni.Frame.{Frame}
use cannelloni.FrameBuffer.{reset}
use cannelloni.FrameBuffer.Invariant.{IsSound, insert_frame-IsSound, insert_frame_pool-IsSound}
use cannelloni.Timer.{ItimerSpec}
use cannelloni.Connection.{ConnectionThread, IsLawful}
use cannelloni.CanThread.{CanThread}
use cannelloni.CanThread.{transmit_frame as can_transmit_frame, fire_timer}
use cannelloni.UdpThread.{UdpThread, transmit_frame}
use cannelloni.SctpThread.{
  SctpThread, ServerEvent, select_failed, no_client, accept_failed, not_convertible, accepted,
  wait_for_client, connect_client, transmit_or_drop,
}

module _ {Fd : Type 0} (gettime : Fd → ItimerSpec) (settime : ItimerSpec → Fd → Fd) where
  -- The three kinds of thread as a peer.
  unfoldable pub udp_thread : ConnectionThread (UdpThread Fd)
  udp_thread = record {
    get_frame_buffer = λ t. t.frame_buffer;
    set_frame_buffer = λ b t. record t { frame_buffer = b };
    transmit_frame = transmit_frame gettime settime;
  }

  unfoldable pub can_thread : ConnectionThread (CanThread Fd)
  can_thread = record {
    get_frame_buffer = λ t. t.frame_buffer;
    set_frame_buffer = λ b t. record t { frame_buffer = b };
    transmit_frame = can_transmit_frame gettime settime;
  }

  unfoldable pub sctp_thread : ConnectionThread (SctpThread Fd)
  sctp_thread = record {
    get_frame_buffer = λ t. t.udp.frame_buffer;
    set_frame_buffer = λ b t. record t { udp = record t.udp { frame_buffer = b } };
    transmit_frame = transmit_or_drop gettime settime;
  }

  transmit_or_drop-IsSound :
      (f : Frame) (held : List Frame) (t : SctpThread Fd)
      → IsSound t.udp.frame_buffer (f ∷ held)
      → IsSound (transmit_or_drop gettime settime f t).udp.frame_buffer held
  unfolding transmit_or_drop transmit_frame
  transmit_or_drop-IsSound f held t v = elim (Bool-cases t.connected) [
    | inl on ↦ rw on (insert_frame-IsSound f t.udp.frame_buffer held v)
    | inr off ↦ rw off (insert_frame_pool-IsSound f t.udp.frame_buffer held v)
  ]

  -- Each of the three threads, the one at the CAN socket, the one over UDP and the one over SCTP with
  -- a connection or without, takes over the frames that its peer gives it: afterwards its frame buffer
  -- has the frame, once, and is sound.
  pub threads-IsLawful : IsLawful udp_thread × IsLawful can_thread × IsLawful sctp_thread
  unfolding udp_thread can_thread sctp_thread transmit_frame can_transmit_frame fire_timer
  threads-IsLawful = (
    record {
      get_set = λ b p. refl;
      takes_over = λ f held p v. insert_frame-IsSound f p.frame_buffer held v;
    },
    record {
      get_set = λ b p. refl;
      takes_over = λ f held p v. insert_frame-IsSound f p.frame_buffer held v;
    },
    record { get_set = λ b p. refl; takes_over = transmit_or_drop-IsSound },
  )

peer_or_any :
    (a b : ℕ) (check : Bool)
    → (check && not (a == b)) ≡ false
    → (check ≡ false) ⊎ (accepted a ≡ accepted b)
peer_or_any a b false e = inl refl
peer_or_any a b true e = inr (ap accepted (ground (arith, e)))

-- A server that checks its peers goes from no connection to a connection only with the peer that the
-- user named, and no frame that was buffered before goes out on it: the buffer is empty, its counter
-- is zero, and the frames are in the pool.
pub wait_for_client_lem :
    {Fd : Type 0} (e : ServerEvent) (t : SctpThread Fd)
    → t.connected ≡ false
    → (wait_for_client e t).connected ≡ true
    → ((t.check_peer_connect ≡ false) ⊎ (e ≡ accepted t.udp.remote_addr))
      × ((wait_for_client e t).udp.frame_buffer ≡ reset t.udp.frame_buffer)
      × ((wait_for_client e t).udp.frame_buffer.buffer ≡ [])
      × ((wait_for_client e t).udp.frame_buffer.buffer_size ≡ 0)
unfolding wait_for_client connect_client reset
wait_for_client_lem select_failed t off on = absurd (false≢true (sym off ∙ on))
wait_for_client_lem no_client t off on = absurd (false≢true (sym off ∙ on))
wait_for_client_lem accept_failed t off on = absurd (false≢true (sym off ∙ on))
wait_for_client_lem not_convertible t off on = absurd (false≢true (sym off ∙ on))
wait_for_client_lem (accepted addr) t off on =
    elim (Bool-cases (t.check_peer_connect && not (addr == t.udp.remote_addr))) [
      | inl foreign ↦ absurd (false≢true (sym off ∙ (rw foreign at on)))
      | inr fine ↦
          rw fine (peer_or_any addr t.udp.remote_addr t.check_peer_connect fine, refl, refl, refl)
    ]
