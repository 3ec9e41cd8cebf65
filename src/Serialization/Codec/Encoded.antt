-- ===== src/Serialization/Codec/Encoded.antt =====
-- What `encode` answers, and what it leaves in its destination, for any frame.
use real_time_data_platform.Base.{
  ℕ, ◌+◌, ◌%◌, ◌≤◌, ◌≡◌, ◌⊎◌, inl, inr, sym, List, arith, length, drop, length-append, length-drop,
  drop-append,
}
use real_time_data_platform.Error.{RtdpError, ok, err}
use real_time_data_platform.Protocol.Frame.{OwnedFrame}
use real_time_data_platform.Serialization.Codec.{FrameCodec, encode}
use real_time_data_platform.Serialization.Codec.Decode.{Result-cases}
use real_time_data_platform.Serialization.Codec.RoundTrip.{
  frame_length, frame_packet, checked_header, length-frame_packet, encode_written,
}
use real_time_data_platform.Wire.{Wire}

module _ (w : Wire) where
  pub record Fits (c : FrameCodec) (frame : OwnedFrame) (dst : List ℕ) (len : ℕ) : Type 0 where
    pub aligned : (48 + length frame.extension_bytes) % 4 ≡ 0
    pub fits : frame_length w frame ≤ c.max_frame_size
    pub room : frame_length w frame ≤ length dst
    pub len_is : len ≡ frame_length w frame

  pub encode-Fits :
      (c : FrameCodec) (frame : OwnedFrame) (dst : List ℕ) (len : ℕ)
      → (encode w c frame dst).1 ≡ ok len
      → Fits c frame dst len
  unfolding encode
  encode-Fits c frame dst len h =
      let a : (48 + length frame.extension_bytes) % 4 ≡ 0 = ground arith in
      let b : frame_length w frame ≤ c.max_frame_size = ground arith in
      let r : frame_length w frame ≤ length dst = ground arith in
      let l : len ≡ frame_length w frame = ground arith in
      record { aligned = a; fits = b; room = r; len_is = l }

  length-encode :
      (c : FrameCodec) (frame : OwnedFrame) (dst : List ℕ) (len : ℕ)
      → Fits c frame dst len
      → (length (encode w c frame dst).0 ≡ length dst)
        × (drop len (encode w c frame dst).0 ≡ drop len dst)
  length-encode c frame dst len f =
      let packet = frame_packet w (checked_header w frame) frame in
      let n = length-frame_packet w (checked_header w frame) frame in
      let rest = drop (frame_length w frame) dst in
      rw (encode_written w c frame dst f.aligned f.fits f.room, f.len_is)
        (
          omega
              (arith, n, length-append packet rest, length-drop (frame_length w frame) dst, f.room),
          drop-append packet rest (frame_length w frame) (sym n),
        )

  encode_refused :
      (c : FrameCodec) (frame : OwnedFrame) (dst : List ℕ) (e : RtdpError)
      → (encode w c frame dst).1 ≡ err e
      → encode w c frame dst ≡ (dst, err e)
  unfolding encode
  encode_refused c frame dst e h = ground arith

  -- Whatever the frame and the destination, encode either refuses and leaves the destination as it
  -- was, or gives the length of the frame, which is within the configured maximum and within the
  -- destination, and writes nothing behind it; the destination keeps its length, and the header is
  -- a multiple of four bytes.
  pub encode-IsBounded :
      (c : FrameCodec) (frame : OwnedFrame) (dst : List ℕ)
      → ((len : ℕ) × ((encode w c frame dst).1 ≡ ok len)
          × Fits c frame dst len
          × (length (encode w c frame dst).0 ≡ length dst)
          × (drop len (encode w c frame dst).0 ≡ drop len dst))
        ⊎ ((e : RtdpError) × (encode w c frame dst ≡ (dst, err e)))
  encode-IsBounded c frame dst = elim (Result-cases (encode w c frame dst).1) [
    | inl (len, h) ↦
        let f = encode-Fits c frame dst len h in
        let (kept, rest) = length-encode c frame dst len f in inl (len, h, f, kept, rest)
    | inr (e, h) ↦ inr (e, encode_refused c frame dst e h)
  ]
