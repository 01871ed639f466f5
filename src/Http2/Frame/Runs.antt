-- ===== src/Http2/Frame/Runs.antt =====
-- Concrete frames, and the theorems at concrete inputs.
use cpp_linux_server.Base.{ℕ, ◌≡◌, ◌++◌, refl, List, [], ◌∷◌, arith, true, false}
use cpp_linux_server.ByteArray.{
  ByteArray, create, ret, fault, write, read, set_position, big_endian, ◌>>◌,
}
use cpp_linux_server.ByteArray.Effects.{IsNetwork, Wrote, Read}
use cpp_linux_server.ByteArray.Fixed.{read_fuint8, write_fuint8, of_bytes, to_bytes}
use cpp_linux_server.Http2.Frame.{
  FrameHeader, data_write, data_body, data_read, data_fill, read_rest, frame_type, frame_length,
}
use cpp_linux_server.Http2.Frame.Codec.{
  ping_payload, push_promised_payload, PushPromisedFrame, parsed, payload_read, payload_write,
}
use cpp_linux_server.Http2.Frame.Switch.{
  payload_bytes, payload_read-payload_bytes, payload_write-payload_bytes,
}

abbrev ping_header : FrameHeader
ping_header = record { len_type = 2054; flags = 0; r_id = 0 }

abbrev eight : List ℕ
eight = 1 ∷ 2 ∷ 3 ∷ 4 ∷ 5 ∷ 6 ∷ 7 ∷ 8 ∷ []

-- A byte array that holds the payload, in one block of ten bytes.
abbrev held : ByteArray
held = record {
  base_size = 10;
  position = 0;
  capacity = 10;
  size = 8;
  endian = big_endian;
  nodes = (eight ++ (256 ∷ 256 ∷ [])) ∷ [];
  cur = 0;
  owner = true;
}

held-IsNetwork : IsNetwork held
held-IsNetwork = record {
  valid = record {
    base_pos = omega arith;
    blocks = (refl, tt);
    capacity_eq = refl;
    cur_eq = refl;
    position_le = omega arith;
    size_le = omega arith;
    rooted = omega arith;
  };
  order = refl;
}

payload_read-payload_bytes_example :
    (ba' : ByteArray) × (payload_read ping_header held ≡ ret (parsed (ping_payload eight)) ba')
    × Read eight [] held ba'
unfolding frame_type
payload_read-payload_bytes_example =
    payload_read-payload_bytes ping_header (ping_payload eight) [] held (refl, refl) held-IsNetwork
      refl (omega arith)

-- A PUSH_PROMISE without padding, its length not set yet.
abbrev promise_header : FrameHeader
promise_header = record { len_type = 5; flags = 0; r_id = 1 }

abbrev promise : PushPromisedFrame
promise = record { pad = 0; r_stream_id = 2; content = 7 ∷ 8 ∷ 9 ∷ []; padding = [] }

payload_write-payload_bytes_example :
    (ba' : ByteArray) × (payload_write promise_header (push_promised_payload promise) held
      ≡ ret false ba')
    × Wrote (payload_bytes promise_header (push_promised_payload promise)) held ba'
unfolding frame_type frame_length
payload_write-payload_bytes_example =
    payload_write-payload_bytes promise_header (push_promised_payload promise) held (omega arith)
      held-IsNetwork

-- A DATA frame with a pad length of 0 that ends where the capacity ends: its bytes are written, and
-- reading them back dereferences the null m_cur for the empty padding.
abbrev padded_header : FrameHeader
padded_header = record { len_type = 1024; flags = 8; r_id = 1 }

padded_at_end_faults :
    (do
      data_write padded_header (record { pad = 0; content = 1 ∷ 2 ∷ 3 ∷ []; padding = [] })
      set_position 0
      data_read padded_header)
      (create 4)
    ≡ fault
unfolding data_write data_body data_read data_fill read_rest frame_length write_fuint8 read_fuint8
    to_bytes of_bytes write read set_position create
padded_at_end_faults = refl
