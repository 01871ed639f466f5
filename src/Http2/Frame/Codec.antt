-- ===== src/Http2/Frame/Codec.antt =====
-- The remaining payloads of frame.cc and the choice among them by the type of the frame.
use cpp_linux_server.Base.{
  ℕ, zero, suc, ◌+◌, ◌-◌, ◌/◌, List, [], ◌∷◌, length, Bool, true, false, ltb, ◌==◌, if◌then◌else◌,
  none, some,
}
use cpp_linux_server.ByteArray.{M, return, ◌>>=◌, ◌>>◌, write, read}
use cpp_linux_server.ByteArray.Fixed.{
  write_fuint8, write_fuint16, write_fuint32, read_fuint8, read_fuint16, read_fuint32,
}
use cpp_linux_server.Http2.Frame.{
  FrameHeader, frame_type, frame_length, has, flag_padded, try, attempt, read_rest, DataFrame,
  data_write, data_read, PriorityFrame, no_priority, priority_write, priority_read, HeadersFrame,
  headers_write, headers_read,
}

pub record SettingsItem : Type 0 where
  pub ident : ℕ
  pub value : ℕ

unfoldable pub item_write : SettingsItem → M (Unit {0})
item_write i = do write_fuint16 i.ident; write_fuint32 i.value

unfoldable pub item_read : M SettingsItem
item_read = do
  ident ← read_fuint16
  value ← read_fuint32
  return (record { ident = ident; value = value })

unfoldable pub settings_write : List SettingsItem → M (Unit {0})
settings_write [] = return tt
settings_write (i ∷ items) = do item_write i; settings_write items

unfoldable pub read_items : ℕ → M (List SettingsItem)
read_items zero = return []
read_items (suc n) = do i ← item_read; items ← read_items n; return (i ∷ items)

-- sizeof(SettingsItem), under pack(1), is 6.
unfoldable pub settings_read : FrameHeader → M (List SettingsItem)
settings_read h = read_items (frame_length h / 6)

pub record PushPromisedFrame : Type 0 where
  pub pad : ℕ
  pub r_stream_id : ℕ
  pub content : List ℕ
  pub padding : List ℕ

unfoldable pub push_promised_body : Bool → PushPromisedFrame → M (Unit {0})
push_promised_body true f = do
  write_fuint8 f.pad
  write_fuint32 f.r_stream_id
  write f.content
  write f.padding
push_promised_body false f = do write_fuint32 f.r_stream_id; write f.content

-- The try block has no `return true`: control falls to `return false` either way.
unfoldable pub push_promised_write : FrameHeader → PushPromisedFrame → M Bool
push_promised_write h f = do try (push_promised_body (has h.flags flag_padded) f); return false

unfoldable pub push_promised_fill : Bool → ℕ → M PushPromisedFrame
push_promised_fill true size = do
  pad ← read_fuint8
  r_stream_id ← read_fuint32
  content ← read_rest size (5 + pad)
  padding ← read pad
  return (record { pad = pad; r_stream_id = r_stream_id; content = content; padding = padding })
push_promised_fill false size = do
  r_stream_id ← read_fuint32
  content ← read_rest size 4
  return (record { pad = 0; r_stream_id = r_stream_id; content = content; padding = [] })

unfoldable pub push_promised_read : FrameHeader → M PushPromisedFrame
push_promised_read h = push_promised_fill (has h.flags flag_padded) (frame_length h)

pub record GoAwayFrame : Type 0 where
  pub r_last_stream_id : ℕ
  pub error_code : ℕ
  pub content : List ℕ

unfoldable pub go_away_write : GoAwayFrame → M (Unit {0})
go_away_write f = do
  write_fuint32 f.r_last_stream_id
  write_fuint32 f.error_code
  if length f.content == 0 then return tt else write f.content

unfoldable pub go_away_read : FrameHeader → M GoAwayFrame
go_away_read h = do
  r_last_stream_id ← read_fuint32
  error_code ← read_fuint32
  content ← if ltb 8 (frame_length h) then read (frame_length h - 8) else return []
  return
      (record { r_last_stream_id = r_last_stream_id; error_code = error_code; content = content })

-- The payload of a frame; an RST_STREAM is its error code, a PING its eight bytes, a WINDOW_UPDATE
-- its word r_increment.
pub data Payload : Type 0 where
  data_payload : DataFrame → Payload
  headers_payload : HeadersFrame → Payload
  priority_payload : PriorityFrame → Payload
  rst_stream_payload : ℕ → Payload
  settings_payload : List SettingsItem → Payload
  push_promised_payload : PushPromisedFrame → Payload
  ping_payload : List ℕ → Payload
  go_away_payload : GoAwayFrame → Payload
  window_update_payload : ℕ → Payload

-- frame->data->writeTo(ba, frame->header)
unfoldable pub payload_write : FrameHeader → Payload → M Bool
payload_write h (data_payload f) = try (data_write h f)
payload_write h (headers_payload f) = try (headers_write h f)
payload_write h (priority_payload f) = try (priority_write f)
payload_write h (rst_stream_payload code) = try (write_fuint32 code)
payload_write h (settings_payload items) = try (settings_write items)
payload_write h (push_promised_payload f) = push_promised_write h f
payload_write h (ping_payload bytes) = try (write bytes)
payload_write h (go_away_payload f) = try (go_away_write f)
payload_write h (window_update_payload r_increment) = try (write_fuint32 r_increment)

-- The outcome of readFrom in the switch of parseFrom: no frame, a frame with no payload (for
-- CONTINUATION), or one with a payload.
pub data Parsed : Type 0 where
  refused : Parsed
  bare : Parsed
  parsed : Payload → Parsed

abbrev pub wrap_payload : {A : Type 0} → (A → Payload) → M A → M Parsed
wrap_payload f m = do r ← attempt m; return (elim r [ none ↦ refused | some a ↦ parsed (f a) ])

abbrev pub priority_parsed : PriorityFrame × Bool → Parsed
priority_parsed (f, true) = parsed (priority_payload f)
priority_parsed (f, false) = refused

-- The switch of FrameCodec::parseFrom.
unfoldable pub payload_read : FrameHeader → M Parsed
payload_read h =
    let t : ℕ = frame_type h in
    if t == 0x0
    then wrap_payload data_payload (data_read h)
    else if t == 0x1
    then wrap_payload headers_payload (headers_read h)
    else if t == 0x2
    then (do r ← priority_read no_priority; return (priority_parsed r))
    else if t == 0x3
    then wrap_payload rst_stream_payload read_fuint32
    else if t == 0x4
    then wrap_payload settings_payload (settings_read h)
    else if t == 0x5
    then wrap_payload push_promised_payload (push_promised_read h)
    else if t == 0x6
    then wrap_payload ping_payload (read 8)
    else if t == 0x7
    then wrap_payload go_away_payload (go_away_read h)
    else if t == 0x8
    then wrap_payload window_update_payload read_fuint32
    else if t == 0x9
    then return bare
    else return refused
