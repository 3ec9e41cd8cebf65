-- ===== src/Transport/System/Published.antt =====
-- The frames that a publisher (transports/udp/src/publisher.rs) has published, in order, and the
-- responses for them.
use real_time_data_platform.Base.{
  ℕ, zero, suc, ◌+◌, ◌^◌, ◌≤◌, ◌<◌, ◌≡◌, refl, sym, ap, ◌∙◌, Bool, true, List, [], ◌∷◌, ◌++◌, arith,
  length, Each,
}
use real_time_data_platform.Error.{ok}
use real_time_data_platform.Protocol.Frame.{OwnedFrame}
use real_time_data_platform.Serialization.Codec.{FrameCodec}
use real_time_data_platform.Buffers.Ring.Retention.{published}
use real_time_data_platform.Recovery.Data.{ReplayRequestPayload, ActiveReplayRequest}
use real_time_data_platform.Recovery.Engine.Drain.{CountsUp}
use real_time_data_platform.Recovery.Engine.InOrder.{IsHalfway, respond_all-IsHalfway}
use real_time_data_platform.Transport.Publisher.{encoded, send, send_responses}
use real_time_data_platform.Transport.Subscriber.{SocketAddr, Worker}
use real_time_data_platform.Transport.System.Quiet.{Clock, IsQuiet}
use real_time_data_platform.Transport.System.Hearing.{
  hear_all, IsSendable, Same, Same-length, hear_all-send_responses,
}
use real_time_data_platform.Wire.{Wire}

pub Same-CountsUp : (s : ℕ) (fs gs : List OwnedFrame) → Same fs gs → CountsUp s gs → CountsUp s fs
Same-CountsUp s [] [] ss counts = tt
Same-CountsUp s (f ∷ fs) (g ∷ gs) (c, ss) (own, counts) =
    (c.sequence ∙ own, Same-CountsUp (s + 1) fs gs ss counts)
Same-CountsUp s [] (g ∷ gs) ss counts = absurd ss
Same-CountsUp s (f ∷ fs) [] ss counts = absurd ss

module _ (hist : ℕ → OwnedFrame) where
  pub published-CountsUp :
      (rounds from : ℕ)
      → ((s : ℕ) → (hist s).header.sequence ≡ s)
      → CountsUp from (published hist rounds from)
  unfolding published
  published-CountsUp zero from stamped = tt
  published-CountsUp (suc rounds) from stamped =
      (stamped from, published-CountsUp rounds (from + 1) stamped)

  pub length-published : (rounds from : ℕ) → length (published hist rounds from) ≡ rounds
  unfolding published
  length-published zero from = refl
  length-published (suc rounds) from = ap suc (length-published rounds (from + 1))

  pub published-append :
      (m n from : ℕ)
      → published hist (m + n) from ≡ published hist m from ++ published hist n (from + m)
  unfolding published
  published-append zero n from =
      let none_more : from + 0 ≡ from = omega arith in
      let all : 0 + n ≡ n = omega arith in
      ap (λ s. published hist s from) all ∙ sym (ap (published hist n) none_more)
  published-append (suc m) n from =
      let more : suc m + n ≡ suc (m + n) = omega arith in
      let shifted : from + 1 + m ≡ from + suc m = omega arith in
      ap (λ count. published hist count from) more
      ∙ ap (λ fs. hist from ∷ fs)
          (published-append m n (from + 1)
            ∙ ap (λ s. published hist m (from + 1) ++ published hist n s) shifted)

  pub published_last :
      (rounds from : ℕ)
      → published hist (suc rounds) from ≡ published hist rounds from ++ hist (from + rounds) ∷ []
  unfolding published
  published_last rounds from =
      let one_more : suc rounds ≡ rounds + 1 = omega arith in
      ap (λ count. published hist count from) one_more ∙ published-append rounds 1 from

module _ (w : Wire) where
  pub sends_packet :
      (f : OwnedFrame) (c' c : FrameCodec) (size' size : ℕ) (taken : Bool) (packet : List ℕ)
      → c' ≡ c
      → size' ≡ size
      → taken ≡ true
      → encoded w c f size ≡ ok packet
      → (send w (encoded w c' f size') taken).0 ≡ packet ∷ []
  unfolding send
  sends_packet f c' c size' size taken packet codec same sent e = rw (codec, same, e, sent) refl

  -- The responses to the request of a worker that holds back the frame behind the range give the
  -- frames of the range and that frame.
  pub hear_all-IsHalfway :
      (k : Worker) (peer : SocketAddr) (clock : Clock) (req : ReplayRequestPayload)
      (active : ActiveReplayRequest) (s : ℕ) (fs : List OwnedFrame) (held : OwnedFrame)
      → IsQuiet k.stream_rx.recovery clock
      → k.codec.max_frame_size ≤ 1500
      → req.request_id < 2 ^ 64
      → Each (IsSendable w k.codec k.stream_id) fs
      → IsHalfway k.stream_rx.recovery req.request_id active s [] held
      → CountsUp s fs
      → s + length fs ≡ active.to_sequence + 1
      → 0 < length fs
      → (restored : List OwnedFrame) × Same restored fs
        × (hear_all w k peer clock (send_responses w k.codec req fs) ≡ restored ++ held ∷ [])
  hear_all-IsHalfway k peer clock req active s fs held quiet small id_small ss v counts long
        some_left =
      let (restored, heard, contents) =
        hear_all-send_responses w k peer clock k.codec req fs quiet refl small id_small ss in
      let same_length = Same-length restored fs contents in
      (
        restored,
        contents,
        heard
            ∙ respond_all-IsHalfway k.stream_rx.recovery req.request_id active s [] restored held v
                (Same-CountsUp s restored fs contents counts) (omega (arith, same_length, long))
                (omega (arith, same_length)),
      )
