-- ===== src/Transport/System/Genuine.antt =====
-- What a subscriber (transports/udp/src/subscriber.rs) offers to the application, over a network
-- that loses, repeats and reorders packets.
use real_time_data_platform.Base.{refl, ◌∙◌, In, In-Each}
use real_time_data_platform.Protocol.Frame.{OwnedFrame}
use real_time_data_platform.Transport.Subscriber.Responses.{SameContents}
use real_time_data_platform.Transport.System.{System, Reachable}
use real_time_data_platform.Wire.{Wire}
use real_time_data_platform.Transport.System.Preserved.{Reachable-Preserved}

SameContents-refl : (f : OwnedFrame) → SameContents f f
SameContents-refl f = record {
  message_type = refl;
  stream_id = refl;
  sequence = refl;
  timestamp_ns = refl;
  publisher_id = refl;
  extensions = refl;
  payload = refl;
}

SameContents-trans : (f g h : OwnedFrame) → SameContents f g → SameContents g h → SameContents f h
SameContents-trans f g h a b = record {
  message_type = a.message_type ∙ b.message_type;
  stream_id = a.stream_id ∙ b.stream_id;
  sequence = a.sequence ∙ b.sequence;
  timestamp_ns = a.timestamp_ns ∙ b.timestamp_ns;
  publisher_id = a.publisher_id ∙ b.publisher_id;
  extensions = a.extensions ∙ b.extensions;
  payload = a.payload ∙ b.payload;
}

-- In every state that a publisher and a subscriber with the same codec configuration can reach
-- from fresh ones, over a network that loses, repeats and reorders packets, whatever requests the
-- publisher is sent, and in every delivery mode: a frame that was offered to the application has
-- the type, stream, sequence, time, publisher, extensions and payload of a frame that was
-- published or stored. The frames that the application hands to publish_frame or
-- store_in_ring_only are DATA frames without extensions, with values of the widths of their
-- fields, the times and ids have 64 bits, and the maximum frame size is below 2^32.
pub Reachable-IsGenuine :
    (w : Wire) (s : System) (f : OwnedFrame)
    → Reachable w s
    → In f s.offered
    → (g : OwnedFrame) × In g s.log × SameContents f g
Reachable-IsGenuine w s f r offered =
    let genuine : OwnedFrame → Type 0 = λ f'. (g : OwnedFrame) × In g s.log × SameContents f' g in
    let respects : (f' g : OwnedFrame) → SameContents f' g → genuine g → genuine f' =
      λ f' g same (h, logged, same'). (h, logged, SameContents-trans f' g h same same') in
    let logged : (g : OwnedFrame) → In g s.log → genuine g = λ g i. (g, i, SameContents-refl g) in
    In-Each genuine f s.offered (Reachable-Preserved w genuine respects r logged).offered offered
