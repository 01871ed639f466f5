-- ===== src/Http2/Frame/Switch.antt =====
-- writeTo and readFrom of every payload, by the type of its frame.
use cpp_linux_server.Base.{
  ℕ, ◌+◌, ◌*◌, ◌/◌, ◌^◌, ◌<◌, ◌≡◌, refl, sym, List, ◌++◌, length, Bool, true, false, some, arith,
  All,
}
use cpp_linux_server.ByteArray.{ByteArray, M, ret, bind-ret, write, read}
use cpp_linux_server.ByteArray.Stream.{view}
use cpp_linux_server.ByteArray.Fixed.{write_fuint32, read_fuint32}
use cpp_linux_server.ByteArray.Effects.{
  IsNetwork, Wrote, Writes, Read, Reads, Writes-write, Reads-map, Reads-read,
}
use cpp_linux_server.Http2.Frame.{
  FrameHeader, frame_type, frame_length, has, flag_padded, try, attempt, DataFrame, data_write,
  data_read, no_priority, priority_write, priority_read, headers_write, headers_read,
}
use cpp_linux_server.Http2.Frame.Codec.{
  SettingsItem, settings_write, settings_read, PushPromisedFrame, push_promised_write,
  push_promised_body, push_promised_read, go_away_write, go_away_read, Payload, data_payload,
  headers_payload, priority_payload, rst_stream_payload, settings_payload, push_promised_payload,
  ping_payload, go_away_payload, window_update_payload, payload_write, payload_read, parsed,
  wrap_payload, priority_parsed,
}
use cpp_linux_server.Http2.Frame.RoundTrip.{
  word32, Writes-word32, Reads-word32, data_bytes, FitsData, Writes-data, Reads-data,
}
use cpp_linux_server.Http2.Frame.Payloads.{
  settings_bytes, IsItem, Writes-settings, Reads-settings, priority_bytes, IsPriority,
  Writes-priority, Reads-priority, go_away_bytes, FitsGoAway, Writes-go_away, Reads-go_away,
  push_promised_bytes, FitsPushPromised, Writes-push_promised, Reads-push_promised,
}
use cpp_linux_server.Http2.Frame.Headers.{
  headers_bytes, FitsHeaders, Writes-headers, Reads-headers, received_headers,
}

abbrev pub payload_bytes : FrameHeader → Payload → List ℕ
payload_bytes h (data_payload f) = data_bytes (has h.flags flag_padded) f
payload_bytes h (headers_payload f) = headers_bytes h f
payload_bytes h (priority_payload f) = priority_bytes f
payload_bytes h (rst_stream_payload code) = word32 code
payload_bytes h (settings_payload items) = settings_bytes items
payload_bytes h (push_promised_payload f) = push_promised_bytes (has h.flags flag_padded) f
payload_bytes h (ping_payload bytes) = bytes
payload_bytes h (go_away_payload f) = go_away_bytes f
payload_bytes h (window_update_payload r_increment) = word32 r_increment

-- The payload is of the header's type and fills the header's length; its fields are in range.
abbrev pub FitsPayload : FrameHeader → Payload → Type 0
FitsPayload h (data_payload f) =
    (frame_type h ≡ 0x0) × FitsData (has h.flags flag_padded) (frame_length h) f
FitsPayload h (headers_payload f) = (frame_type h ≡ 0x1) × FitsHeaders h f
FitsPayload h (priority_payload f) = (frame_type h ≡ 0x2) × IsPriority f
FitsPayload h (rst_stream_payload code) = (frame_type h ≡ 0x3) × (code < 2 ^ 32)
FitsPayload h (settings_payload items) =
    (frame_type h ≡ 0x4) × All IsItem items × (frame_length h ≡ 6 * length items)
FitsPayload h (push_promised_payload f) =
    (frame_type h ≡ 0x5) × FitsPushPromised (has h.flags flag_padded) (frame_length h) f
FitsPayload h (ping_payload bytes) = (frame_type h ≡ 0x6) × (length bytes ≡ 8)
FitsPayload h (go_away_payload f) = (frame_type h ≡ 0x7) × FitsGoAway (frame_length h) f
FitsPayload h (window_update_payload r_increment) = (frame_type h ≡ 0x8) × (r_increment < 2 ^ 32)

-- The payload at the receiver.
abbrev pub received : Payload → Payload
received (headers_payload f) = headers_payload (received_headers f)
received p = p

-- What writeTo returns where nothing throws.
abbrev pub succeeds : Payload → Bool
succeeds (push_promised_payload f) = false
succeeds p = true

attempt-ret :
    {A : Type 0} {a : A} (m : M A) (ba ba' : ByteArray)
    → m ba ≡ ret a ba'
    → attempt m ba ≡ ret (some a) ba'
attempt-ret m ba ba' p = rw (attempt, p) refl

try-ret : (m : M (Unit {0})) (ba ba' : ByteArray) → m ba ≡ ret tt ba' → try m ba ≡ ret true ba'
try-ret m ba ba' p = rw (try, p) refl

Reads-wrap :
    {A : Type 0} (f : A → Payload) (m : M A) {xs : List ℕ} {a : A}
    → Reads xs a m
    → Reads xs (parsed (f a)) (wrap_payload f m)
Reads-wrap f m {xs} {a} r ba rest h e room =
    let (ba', p, q) = r ba rest h e room in
    (ba', bind-ret (attempt m) _ (attempt-ret m ba ba' p), q)

Reads-data_read :
    (h : FrameHeader) (f : DataFrame)
    → FitsData (has h.flags flag_padded) (frame_length h) f
    → Reads (data_bytes (has h.flags flag_padded) f) f (data_read h)
unfolding data_read
Reads-data_read h f v = Reads-data (has h.flags flag_padded) (frame_length h) f v

Reads-push_promised_read :
    (h : FrameHeader) (f : PushPromisedFrame)
    → FitsPushPromised (has h.flags flag_padded) (frame_length h) f
    → Reads (push_promised_bytes (has h.flags flag_padded) f) f (push_promised_read h)
unfolding push_promised_read
Reads-push_promised_read h f v = Reads-push_promised (has h.flags flag_padded) (frame_length h) f v

Reads-settings_read :
    (h : FrameHeader) (items : List SettingsItem)
    → All IsItem items
    → frame_length h ≡ 6 * length items
    → Reads (settings_bytes items) items (settings_read h)
unfolding settings_read
Reads-settings_read h items v e = Reads-settings (frame_length h / 6) items v (omega arith)

Reads-payload :
    (h : FrameHeader) (p : Payload)
    → FitsPayload h p
    → Reads (payload_bytes h p) (parsed (received p)) (payload_read h)
unfolding payload_read
Reads-payload h (data_payload f) v =
    rw v.0 (Reads-wrap data_payload (data_read h) (Reads-data_read h f v.1))
Reads-payload h (headers_payload f) v =
    rw v.0 (Reads-wrap headers_payload (headers_read h) (Reads-headers h f v.1))
Reads-payload h (priority_payload f) v = rw v.0 (
    Reads-map (priority_read no_priority) (λ r. priority_parsed r)
      (Reads-priority f no_priority v.1))
Reads-payload h (rst_stream_payload code) v =
    rw v.0 (Reads-wrap rst_stream_payload read_fuint32 (Reads-word32 code v.1))
Reads-payload h (settings_payload items) v =
    rw v.0 (Reads-wrap settings_payload (settings_read h) (Reads-settings_read h items v.1 v.2))
Reads-payload h (push_promised_payload f) v =
    rw v.0
      (Reads-wrap push_promised_payload (push_promised_read h) (Reads-push_promised_read h f v.1))
Reads-payload h (ping_payload bytes) v =
    rw v.0 (Reads-wrap ping_payload (read 8) (Reads-read bytes 8 (sym v.1)))
Reads-payload h (go_away_payload f) v =
    rw v.0 (Reads-wrap go_away_payload (go_away_read h) (Reads-go_away h f v.1))
Reads-payload h (window_update_payload r_increment) v =
    rw v.0 (Reads-wrap window_update_payload read_fuint32 (Reads-word32 r_increment v.1))

-- Of every kind of payload: where its wire form stands behind the cursor, short of the end of the
-- capacity, the switch reads that payload, and leaves the cursor behind it.
pub payload_read-payload_bytes :
    (h : FrameHeader) (p : Payload) (rest : List ℕ) (ba : ByteArray)
    → FitsPayload h p
    → IsNetwork ba
    → (view ba).after ≡ payload_bytes h p ++ rest
    → ba.position + length (payload_bytes h p) < ba.capacity
    → (ba' : ByteArray) × (payload_read h ba ≡ ret (parsed (received p)) ba')
      × Read (payload_bytes h p) rest ba ba'
payload_read-payload_bytes h p rest ba v n e room = Reads-payload h p v ba rest n e room

-- The fields of a payload that are a byte, a pad length or a weight, are below 256. The header's length is not asked
-- for: serializeTo sets it behind writeTo.
abbrev pub InRange : Payload → Type 0
InRange (data_payload f) = f.pad < 256
InRange (headers_payload f) = (f.pad < 256) × IsPriority f.priority
InRange (priority_payload f) = IsPriority f
InRange (push_promised_payload f) = f.pad < 256
InRange p = Unit {0}

-- `m` puts `xs` at the cursor and returns `b`.
abbrev pub Tried : List ℕ → Bool → M Bool → Type 0
Tried xs b m =
    (ba : ByteArray) → IsNetwork ba → (ba' : ByteArray) × (m ba ≡ ret b ba') × Wrote xs ba ba'

Tried-try : (xs : List ℕ) (m : M (Unit {0})) → Writes xs m → Tried xs true (try m)
Tried-try xs m w ba n = let (ba', e, p) = w ba n in (ba', try-ret m ba ba' e, p)

Tried-push_promised :
    (h : FrameHeader) (f : PushPromisedFrame)
    → f.pad < 256
    → Tried (push_promised_bytes (has h.flags flag_padded) f) false (push_promised_write h f)
unfolding push_promised_write
Tried-push_promised h f v ba n =
    let m : M (Unit {0}) = push_promised_body (has h.flags flag_padded) f in
    let (ba', e, p) = Writes-push_promised (has h.flags flag_padded) f v ba n in
    (ba', bind-ret (try m) _ (try-ret m ba ba' e), p)

Tried-payload :
    (h : FrameHeader) (p : Payload)
    → InRange p
    → Tried (payload_bytes h p) (succeeds p) (payload_write h p)
unfolding payload_write data_write
Tried-payload h (data_payload f) v =
    Tried-try (data_bytes (has h.flags flag_padded) f) (data_write h f)
      (Writes-data (has h.flags flag_padded) f v)
Tried-payload h (headers_payload f) v =
    Tried-try (headers_bytes h f) (headers_write h f) (Writes-headers h f v.0 v.1)
Tried-payload h (priority_payload f) v =
    Tried-try (priority_bytes f) (priority_write f) (Writes-priority f v)
Tried-payload h (rst_stream_payload code) v =
    Tried-try (word32 code) (write_fuint32 code) (Writes-word32 code)
Tried-payload h (settings_payload items) v =
    Tried-try (settings_bytes items) (settings_write items) (Writes-settings items)
Tried-payload h (push_promised_payload f) v = Tried-push_promised h f v
Tried-payload h (ping_payload bytes) v = Tried-try bytes (write bytes) (Writes-write bytes)
Tried-payload h (go_away_payload f) v =
    Tried-try (go_away_bytes f) (go_away_write f) (Writes-go_away f)
Tried-payload h (window_update_payload r_increment) v =
    Tried-try (word32 r_increment) (write_fuint32 r_increment) (Writes-word32 r_increment)

-- Of every kind of payload, its pad length and its weight in range, under any header, on a byte array in network
-- order: writeTo puts its wire form at the cursor; it returns true, except that of a PUSH_PROMISE, which
-- returns false with the bytes written.
pub payload_write-payload_bytes :
    (h : FrameHeader) (p : Payload) (ba : ByteArray)
    → InRange p
    → IsNetwork ba
    → (ba' : ByteArray) × (payload_write h p ba ≡ ret (succeeds p) ba')
      × Wrote (payload_bytes h p) ba ba'
payload_write-payload_bytes h p ba v n = Tried-payload h p v ba n
