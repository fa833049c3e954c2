-- ===== src/Interleaving/Safety.antt =====
-- No frame is in two places or lost, in any interleaving of the single accesses of canthread.cpp and
-- udpthread.cpp.
use cannelloni.Prelude.{
  ℕ, refl, sym, ap, subst, ◌∙◌, ◌≢◌, Bool, true, false, Option, none, List, [], ◌∷◌, ◌++◌,
  append_assoc, arith, if◌then◌else◌,
}
use cannelloni.Frame.{Frame}
use cannelloni.FrameBuffer.{
  FrameBuffer, request_frame, swap_buffers, sort_intermediate_buffer, merge_intermediate_buffer,
}
use cannelloni.FrameBuffer.Invariant.{IsSound, insert_frame-IsSound, insert_frame_pool-IsSound}
use cannelloni.FrameBuffer.Request.{request_frame-safe}
use cannelloni.FrameBuffer.Flush.{
  swap_buffers-IsSound, sort_intermediate_buffer-IsSound, merge_intermediate_buffer-IsSound,
}
use cannelloni.FrameBuffer.Untouched.{insert-Untouched, SameFrames}
use cannelloni.Connection.Keeps.{IsSound-same_addr}
use cannelloni.Timer.{ItimerSpec}
use cannelloni.UdpThread.Keeps.{handle_overflow-IsSound, handle_overflow-SameFrames}
use cannelloni.Interleaving.Ownership.{
  held, Owned, saw_size-Tracks, after_read-Tracks, held-saw_timer, Owned-after, IsSound-at,
  Tracks-at, request-Owned, same-Owned, flush-Owned,
}
use cannelloni.Interleaving.{
  outside, holding, inserted, waiting, expired, saw_empty, saw_frames, swapped, sorted, returned,
  Threads, hasten, send_built, Step, requests, gives_back, loses, inserts, looks_at_timer, enables,
  hastens, reads_timer, looks_at_size, disables, swaps, sorts, builds, returns, sends, merges,
  Reach, here, next,
}

swap-SameFrames : (b : FrameBuffer) → SameFrames b (swap_buffers b)
unfolding swap_buffers
swap-SameFrames b = (refl, refl)

merge-SameFrames : (b : FrameBuffer) → SameFrames b (merge_intermediate_buffer b)
unfolding merge_intermediate_buffer
merge-SameFrames b = (refl, refl)

sort-SameFrames : (b : FrameBuffer) → SameFrames b (sort_intermediate_buffer b)
unfolding sort_intermediate_buffer
sort-SameFrames b = (refl, refl)

module _ {Fd : Type 0} (gettime : Fd → ItimerSpec) (settime : ItimerSpec → Fd → Fd)
    (send : List ℕ → Option ℕ) where
  -- The frames that are lost in a step, and in a run: those into which recv(2) gave an incomplete frame.
  abbrev pub lost_in : {s t : Threads Fd} → Step gettime settime send s t → List Frame
  lost_in (requests r b out e) = []
  lost_in (gives_back f at) = []
  lost_in (loses n f at cut) = f ∷ []
  lost_in (inserts f g at same) = []
  lost_in (looks_at_timer f at) = []
  lost_in (enables f at) = []
  lost_in (hastens f at) = []
  lost_in (reads_timer num_exp at) = []
  lost_in (looks_at_size at) = []
  lost_in (disables at) = []
  lost_in (swaps at) = []
  lost_in (sorts at) = []
  lost_in (builds p at e) = []
  lost_in (returns p at) = []
  lost_in (sends p at) = []
  lost_in (merges at) = []

  abbrev pub lost_on_the_way : {s t : Threads Fd} → Reach gettime settime send s t → List Frame
  lost_on_the_way here = []
  lost_on_the_way (next r step) = lost_in step ++ lost_on_the_way r

  sort-Owned :
      (gone : List Frame) (s : Threads Fd) (sort_frames : Bool)
      → Owned gone s
      → Owned gone (record s {
        net = record s.net {
          frame_buffer =
              if sort_frames
              then sort_intermediate_buffer s.net.frame_buffer
              else s.net.frame_buffer;
        };
        net_at = sorted;
      })
  sort-Owned gone s true o =
      flush-Owned gone s _ sorted o (sort-SameFrames s.net.frame_buffer)
        (sort_intermediate_buffer-IsSound s.net.frame_buffer (held s.can_at ++ gone) o.sound) tt
  sort-Owned gone s false o = flush-Owned gone s s.net.frame_buffer sorted o (refl, refl) o.sound tt

  Step-Owned :
      {gone : List Frame} {s t : Threads Fd}
      → Owned gone s
      → (step : Step gettime settime send s t) → Owned (lost_in step ++ gone) t
  unfolding hasten send_built
  Step-Owned {gone} {s} o (requests r b out e) = request-Owned gone s r b o out e
  Step-Owned {gone} {s} o (gives_back f at) =
      Owned-after gone gone s _ outside o (insert-Untouched f s.net.frame_buffer).1
        (insert_frame_pool-IsSound f s.net.frame_buffer gone (IsSound-at (holding f) o at))
  Step-Owned {gone} {s} o (loses n f at cut) =
      Owned-after gone (f ∷ gone) s s.net.frame_buffer outside o (refl, refl, refl, omega arith)
        (IsSound-at (holding f) o at)
  Step-Owned {gone} {s} o (inserts f g at same) =
      Owned-after gone gone s _ (inserted g) o (insert-Untouched g s.net.frame_buffer).0 (
        insert_frame-IsSound g s.net.frame_buffer gone
          (IsSound-same_addr s.net.frame_buffer gone f g same (IsSound-at (holding f) o at)))
  Step-Owned {gone} {s} o (looks_at_timer f at) =
      same-Owned gone s _ o refl (held-saw_timer _ f ∙ ap held (sym at)) o.tracks
  Step-Owned {gone} {s} o (enables f at) = same-Owned gone s _ o refl (ap held (sym at)) o.tracks
  Step-Owned {gone} {s} o (hastens f at) = same-Owned gone s _ o refl (ap held (sym at)) o.tracks
  Step-Owned {gone} {s} o (reads_timer num_exp at) =
      same-Owned gone s _ o refl refl
        (after_read-Tracks _ s.net.frame_buffer (Tracks-at waiting o at))
  Step-Owned {gone} {s} o (looks_at_size at) =
      same-Owned gone s _ o refl refl
        (saw_size-Tracks _ s.net.frame_buffer (Tracks-at expired o at))
  Step-Owned {gone} {s} o (disables at) = same-Owned gone s _ o refl refl (Tracks-at saw_empty o at)
  Step-Owned {gone} {s} o (swaps at) =
      flush-Owned gone s _ swapped o (swap-SameFrames s.net.frame_buffer)
        (swap_buffers-IsSound s.net.frame_buffer (held s.can_at ++ gone) (Tracks-at saw_frames o at)
          o.sound).0
        tt
  Step-Owned {gone} {s} o (sorts at) = sort-Owned gone s s.net.sort_frames o
  Step-Owned {gone} {s} o (builds p at e) = same-Owned gone s _ o refl refl tt
  Step-Owned {gone} {s} o (returns p at) =
      flush-Owned gone s _ (returned p) o (handle_overflow-SameFrames p.overflow s.net.frame_buffer)
        (handle_overflow-IsSound p.overflow s.net.frame_buffer (held s.can_at ++ gone) o.sound) tt
  Step-Owned {gone} {s} o (sends p at) = same-Owned gone s _ o refl refl tt
  Step-Owned {gone} {s} o (merges at) =
      flush-Owned gone s _ waiting o (merge-SameFrames s.net.frame_buffer)
        (merge_intermediate_buffer-IsSound s.net.frame_buffer (held s.can_at ++ gone) o.sound).0
        (merge_intermediate_buffer-IsSound s.net.frame_buffer (held s.can_at ++ gone) o.sound).1

  Reach-Owned :
      {gone : List Frame} {s t : Threads Fd}
      → Owned gone s
      → (r : Reach gettime settime send s t) → Owned (lost_on_the_way r ++ gone) t
  Reach-Owned o here = o
  Reach-Owned {gone} {s} {t} o (next r step) =
      subst (λ (fs : List Frame). Owned fs t)
        (sym (append_assoc (lost_in step) (lost_on_the_way r) gone))
        (Step-Owned (Reach-Owned o r) step)

  -- From a state in which each frame has one owner, but for the frames of `gone`, and the buffer at the
  -- network has frames and a limit, in whatever order the single accesses of the two threads come: each
  -- frame that was allocated is in exactly one of the pool, the buffer, the intermediate buffer and the
  -- hands of the thread at the CAN socket, but for those of `gone` and those into which recv(2) gave an
  -- incomplete frame on the way; the count of bytes is right; and the next request for a frame does not
  -- fault.
  pub Reach-IsSound :
      (gone : List Frame) (s t : Threads Fd)
      → Owned gone s
      → (r : Reach gettime settime send s t)
      → IsSound t.net.frame_buffer (held t.can_at ++ (lost_on_the_way r ++ gone))
        × (request_frame true t.net.frame_buffer ≢ none)
  Reach-IsSound gone s t o r =
      let now = Reach-Owned o r in
      (
        now.sound,
        request_frame-safe true t.net.frame_buffer (held t.can_at ++ (lost_on_the_way r ++ gone))
            now.sound now.some_frames now.limited,
      )
