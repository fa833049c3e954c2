-- ===== src/Connection/Keeps.antt =====
-- What a thread does to the frame buffer of its peer keeps the buffer sound.
use cannelloni.Prelude.{
  ◌<◌, ◌≡◌, subst, ◌≢◌, inl, inr, true, Option, none, some, List, ◌∷◌, Option-cases,
}
use cannelloni.Frame.{Frame}
use cannelloni.FrameBuffer.{FrameBuffer, insert_frame_pool, request_frame}
use cannelloni.FrameBuffer.Invariant.{IsSound, taken, insert_frame_pool-IsSound}
use cannelloni.FrameBuffer.Request.{RequestIsSound, request_frame-IsSound, request_frame-safe}
use cannelloni.FrameBuffer.Count.{occurrences}
use cannelloni.Connection.{ConnectionThread, IsLawful, request, give_back}

-- The holder of a frame may write to it.
pub IsSound-same_addr :
    (b : FrameBuffer) (held : List Frame) (f g : Frame)
    → g.addr ≡ f.addr
    → IsSound b (f ∷ held)
    → IsSound b (g ∷ held)
unfolding occurrences
IsSound-same_addr b held f g e v = record {
  once = λ a. rw e (v.once a);
  sized = v.sized;
  counted = v.counted;
  bounded = v.bounded;
  max_range = v.max_range;
}

module _ {P : Type 0} (peer : ConnectionThread P) (law : IsLawful peer) where
  pub request-IsSound :
      (p p' : P) (r : Option Frame) (held : List Frame)
      → IsSound (peer.get_frame_buffer p) held
      → request peer p ≡ some (r, p')
      → IsSound (peer.get_frame_buffer p') (taken r held)
  unfolding request
  request-IsSound p p' r held v e =
      elim (Option-cases (request_frame true (peer.get_frame_buffer p))) [
        | inl failed ↦ absurd (cc (rw failed at e))
        | inr ((r', b), given) ↦
            let sound : IsSound b (taken r' held) =
              subst (RequestIsSound held) given (request_frame-IsSound true _ held v) in
            let same_r : r' ≡ r = cc (rw given at e) in
            let same_p : peer.set_frame_buffer b p ≡ p' = cc (rw given at e) in
            subst (λ (q : P). IsSound (peer.get_frame_buffer q) (taken r held)) same_p
              (rw (law.get_set b p)
                (subst (λ (x : Option Frame). IsSound b (taken x held)) same_r sound))
      ]

  pub give_back-IsSound :
      (f : Frame) (p : P) (held : List Frame)
      → IsSound (peer.get_frame_buffer p) (f ∷ held)
      → IsSound (peer.get_frame_buffer (give_back peer f p)) held
  unfolding give_back
  give_back-IsSound f p held v =
      rw (law.get_set (insert_frame_pool f (peer.get_frame_buffer p)) p)
        (insert_frame_pool-IsSound f (peer.get_frame_buffer p) held v)

  -- A buffer that is bounded and has frames gives one out, or says that it has none.
  pub request-total :
      (p : P) (held : List Frame)
      → IsSound (peer.get_frame_buffer p) held
      → 0 < (peer.get_frame_buffer p).next_addr
      → 0 < (peer.get_frame_buffer p).max_alloc_count
      → request peer p ≢ none
  unfolding request
  request-total p held v some_frames bounded e =
      elim (Option-cases (request_frame true (peer.get_frame_buffer p))) [
        | inl failed ↦ request_frame-safe true _ held v some_frames bounded failed
        | inr (r, given) ↦ absurd (cc (rw given at e))
      ]
