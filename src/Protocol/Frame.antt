-- ===== src/Protocol/Frame.antt =====
-- core/src/protocol/frame.rs. A byte is a number below 256; a `&[u8]` and a `Vec<u8>` are lists.
use real_time_data_platform.Base.{ℕ, ◌%◌, ◌^◌, List, [], length}
use real_time_data_platform.Protocol.Header.{FixedHeader, new_data_header}

pub record FrameView : Type 0 where
  pub header : FixedHeader
  pub extension_bytes : List ℕ
  pub payload : List ℕ

pub record OwnedFrame : Type 0 where
  pub header : FixedHeader
  pub extension_bytes : List ℕ
  pub payload : List ℕ

unfoldable pub new_data_frame : ℕ → ℕ → ℕ → ℕ → List ℕ → OwnedFrame
unfolding new_data_header
new_data_frame stream_id sequence timestamp_ns publisher_id payload = record {
  header =
      new_data_header stream_id sequence timestamp_ns publisher_id (length payload % 2 ^ 32) 48;
  extension_bytes = [];
  payload = payload;
}

unfoldable pub view : OwnedFrame → FrameView
view f = record { header = f.header; extension_bytes = f.extension_bytes; payload = f.payload }
