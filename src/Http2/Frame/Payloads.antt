-- ===== src/Http2/Frame/Payloads.antt =====
-- The wire form of the other payloads, and that reading inverts writing.
use cpp_linux_server.Base.{
  ℕ, zero, suc, ◌+◌, ◌^◌, ◌<◌, ◌≡◌, refl, List, [], ◌∷◌, ◌++◌, length, Bool, true, false,
  if◌then◌else◌, arith, All, subst, append_assoc, length-append, ◌∙◌, ltb, ◌==◌, ◌-◌, le→ltb,
  lt→ltb, lt→==, sym,
}
use cpp_linux_server.ByteArray.{ByteArray, return, ret, write, read}
use cpp_linux_server.ByteArray.Fixed.{
  write_fuint8, write_fuint16, write_fuint32, read_fuint8, read_fuint16, read_fuint32,
}
use cpp_linux_server.ByteArray.Effects.{
  Writes, Read-then, Reads, Writes-bind, Writes-write, Writes-fuint, Writes-fuint8, Writes-return,
  Reads-bind, Reads-map, Reads-return, Reads-read, Reads-fuint, Reads-fuint8,
}
use cpp_linux_server.Http2.Frame.{
  FrameHeader, frame_length, PriorityFrame, priority_write, priority_read, read_rest,
}
use cpp_linux_server.Http2.Frame.Codec.{
  SettingsItem, item_write, item_read, settings_write, read_items, PushPromisedFrame,
  push_promised_body, push_promised_fill, GoAwayFrame, go_away_write, go_away_read,
}
use cpp_linux_server.Http2.Frame.RoundTrip.{word16, word32, Writes-word32, Reads-word32, Reads-rest}

abbrev pub item_bytes : SettingsItem → List ℕ
item_bytes i = word16 i.ident ++ word32 i.value

abbrev pub IsItem : SettingsItem → Type 0
IsItem i = (i.ident < 2 ^ 16) × (i.value < 2 ^ 32)

abbrev pub settings_bytes : List SettingsItem → List ℕ
settings_bytes [] = []
settings_bytes (i ∷ items) = item_bytes i ++ settings_bytes items

Writes-item : (i : SettingsItem) → Writes (item_bytes i) (item_write i)
unfolding item_write write_fuint16
Writes-item i =
    Writes-bind (write_fuint16 i.ident) (write_fuint32 i.value) (Writes-fuint 2 i.ident)
      (Writes-word32 i.value)

Reads-item : (i : SettingsItem) → IsItem i → Reads (item_bytes i) i item_read
unfolding item_read read_fuint16
Reads-item i v =
    Reads-bind read_fuint16 _ (Reads-fuint 2 i.ident (omega arith) (omega (arith, v.0))) (
      Reads-map read_fuint32 (λ x. record { ident = i.ident; value = x })
        (Reads-word32 i.value v.1))

pub Writes-settings :
    (items : List SettingsItem) → Writes (settings_bytes items) (settings_write items)
unfolding settings_write
Writes-settings [] = Writes-return
Writes-settings (i ∷ items) =
    Writes-bind (item_write i) (settings_write items) (Writes-item i) (Writes-settings items)

pub Reads-settings :
    (n : ℕ) (items : List SettingsItem)
    → All IsItem items
    → n ≡ length items
    → Reads (settings_bytes items) items (read_items n)
unfolding read_items
Reads-settings zero [] v h = Reads-return []
Reads-settings zero (i ∷ items) v h = absurd (omega arith)
Reads-settings (suc n) [] v h = absurd (omega arith)
Reads-settings (suc n) (i ∷ items) v h =
    Reads-bind item_read _ (Reads-item i v.0)
      (Reads-map (read_items n) (λ rest. i ∷ rest) (Reads-settings n items v.1 (omega arith)))

abbrev pub priority_bytes : PriorityFrame → List ℕ
priority_bytes f = word32 f.e_stream_dep ++ (f.weight ∷ [])

abbrev pub IsPriority : PriorityFrame → Type 0
IsPriority f = (f.e_stream_dep < 2 ^ 32) × (f.weight < 256)

pub Writes-priority :
    (f : PriorityFrame) → IsPriority f → Writes (priority_bytes f) (priority_write f)
unfolding priority_write
Writes-priority f v =
    Writes-bind (write_fuint32 f.e_stream_dep) (write_fuint8 f.weight)
      (Writes-word32 f.e_stream_dep) (Writes-fuint8 f.weight v.1)

priority_read_both :
    (g : PriorityFrame) (dep w : ℕ) (ba ba' ba'' : ByteArray)
    → read_fuint32 ba ≡ ret dep ba'
    → read_fuint8 ba' ≡ ret w ba''
    → priority_read g ba ≡ ret (record { e_stream_dep = dep; weight = w }, true) ba''
unfolding priority_read
priority_read_both g dep w ba ba' ba'' p q = rw (p, priority_read) (rw (q, priority_read) refl)

-- The handler of readFrom is not entered where both reads succeed.
pub Reads-priority :
    (f g : PriorityFrame) → IsPriority f → Reads (priority_bytes f) (f, true) (priority_read g)
Reads-priority f g v ba rest h e room =
    let word : List ℕ = word32 f.e_stream_dep in
    let long : length (word ++ (f.weight ∷ [])) ≡ length word + 1 =
      length-append {0} word (f.weight ∷ []) in
    let (ba', p, q) =
      Reads-word32 f.e_stream_dep v.0 ba (f.weight ∷ rest) h
        (e ∙ append_assoc word (f.weight ∷ []) rest) (omega (arith, long)) in
    let (ba'', p', q') =
      Reads-fuint8 f.weight ba' rest q.network q.after_eq
        (omega (arith, long, q.position_eq, q.capacity_eq)) in
    (
      ba'',
      priority_read_both g f.e_stream_dep f.weight ba ba' ba'' p p',
      Read-then word (f.weight ∷ []) rest ba ba' ba'' q q',
    )

abbrev pub go_away_bytes : GoAwayFrame → List ℕ
go_away_bytes f = word32 f.r_last_stream_id ++ (word32 f.error_code ++ f.content)

pub Writes-go_away : (f : GoAwayFrame) → Writes (go_away_bytes f) (go_away_write f)
unfolding go_away_write
Writes-go_away f =
    Writes-bind (write_fuint32 f.r_last_stream_id) _ (Writes-word32 f.r_last_stream_id) (
      Writes-bind (write_fuint32 f.error_code) _ (Writes-word32 f.error_code)
        (some_bytes f.content))
  where
    some_bytes : (xs : List ℕ) → Writes xs (if length xs == 0 then return tt else write xs)
    some_bytes [] = Writes-return
    some_bytes (x ∷ xs) = rw (lt→== 0 (length {0} (x ∷ xs)) (omega arith)) (Writes-write (x ∷ xs))

abbrev pub FitsGoAway : ℕ → GoAwayFrame → Type 0
FitsGoAway size f =
    (f.r_last_stream_id < 2 ^ 32) × (f.error_code < 2 ^ 32) × (size ≡ 8 + length f.content)

pub Reads-go_away :
    (h : FrameHeader) (f : GoAwayFrame)
    → FitsGoAway (frame_length h) f
    → Reads (go_away_bytes f) f (go_away_read h)
unfolding go_away_read
Reads-go_away h f v = Reads-bind read_fuint32 _ (Reads-word32 f.r_last_stream_id v.0) (
    Reads-bind read_fuint32 _ (Reads-word32 f.error_code v.1) (
      Reads-map _
        (λ c. record {
          r_last_stream_id = f.r_last_stream_id;
          error_code = f.error_code;
          content = c;
        })
        (some_bytes (frame_length h) f.content v.2)))
  where
    some_bytes :
        (size : ℕ) (xs : List ℕ)
        → size ≡ 8 + length xs
        → Reads xs xs (if ltb 8 size then read (size - 8) else return [])
    some_bytes size [] e = rw (le→ltb 8 size (omega arith)) (Reads-return [])
    some_bytes size (x ∷ xs) e =
        rw (lt→ltb 8 size (omega arith)) (Reads-read (x ∷ xs) (size - 8) (omega arith))

-- The wire form of a PUSH_PROMISE payload.
abbrev pub push_promised_bytes : Bool → PushPromisedFrame → List ℕ
push_promised_bytes true f = f.pad ∷ (word32 f.r_stream_id ++ (f.content ++ f.padding))
push_promised_bytes false f = word32 f.r_stream_id ++ f.content

abbrev pub FitsPushPromised : Bool → ℕ → PushPromisedFrame → Type 0
FitsPushPromised true size f =
    (f.r_stream_id < 2 ^ 32)
    × (f.pad < 256)
    × (length f.padding ≡ f.pad)
    × (size ≡ 5 + f.pad + length f.content)
FitsPushPromised false size f =
    (f.r_stream_id < 2 ^ 32) × (f.pad ≡ 0) × (f.padding ≡ []) × (size ≡ 4 + length f.content)

pub Writes-push_promised :
    (b : Bool) (f : PushPromisedFrame)
    → f.pad < 256
    → Writes (push_promised_bytes b f) (push_promised_body b f)
unfolding push_promised_body
Writes-push_promised true f v = Writes-bind (write_fuint8 f.pad) _ (Writes-fuint8 f.pad v) (
    Writes-bind (write_fuint32 f.r_stream_id) _ (Writes-word32 f.r_stream_id) (
      Writes-bind (write f.content) (write f.padding) (Writes-write f.content)
        (Writes-write f.padding)))
Writes-push_promised false f v =
    Writes-bind (write_fuint32 f.r_stream_id) (write f.content) (Writes-word32 f.r_stream_id)
      (Writes-write f.content)

pub Reads-push_promised :
    (b : Bool) (size : ℕ) (f : PushPromisedFrame)
    → FitsPushPromised b size f
    → Reads (push_promised_bytes b f) f (push_promised_fill b size)
unfolding push_promised_fill
Reads-push_promised true size f v = Reads-bind read_fuint8 _ (Reads-fuint8 f.pad) (
    Reads-bind read_fuint32 _ (Reads-word32 f.r_stream_id v.0) (
      Reads-bind (read_rest size (5 + f.pad)) _
        (Reads-rest f.content size (5 + f.pad) (omega (arith, v.3)))
        (Reads-map (read f.pad)
          (λ p. record {
            pad = f.pad;
            r_stream_id = f.r_stream_id;
            content = f.content;
            padding = p;
          })
          (Reads-read f.padding f.pad (sym v.2)))))
Reads-push_promised false size f v =
    subst (λ x. Reads (push_promised_bytes false f) x (push_promised_fill false size)) plain
      (Reads-bind read_fuint32 _ (Reads-word32 f.r_stream_id v.0) (
        Reads-map (read_rest size 4)
          (λ c. record { pad = 0; r_stream_id = f.r_stream_id; content = c; padding = [] })
          (Reads-rest f.content size 4 v.3)))
  where
    plain : record { pad = 0; r_stream_id = f.r_stream_id; content = f.content; padding = [] } ≡ f
    plain = λ i. record {
      pad = (sym v.1) i;
      r_stream_id = f.r_stream_id;
      content = f.content;
      padding = (sym v.2) i;
    }
