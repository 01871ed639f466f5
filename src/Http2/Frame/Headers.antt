-- ===== src/Http2/Frame/Headers.antt =====
-- The wire form of a HEADERS payload, and that readFrom inverts writeTo.
use cpp_linux_server.Base.{
  ℕ, ◌+◌, ◌<◌, ◌≡◌, sym, ap, List, [], ◌∷◌, ◌++◌, length, Bool, true, false, if◌then◌else◌, none,
  subst,
}
use cpp_linux_server.ByteArray.{M, return, write}
use cpp_linux_server.ByteArray.Effects.{
  Writes, Reads, Writes-bind, Writes-write, Writes-fuint8, Writes-return, Reads-bind, Reads-map,
  Reads-return, Reads-read, Reads-fuint8,
}
use cpp_linux_server.Http2.Frame.{
  FrameHeader, frame_length, has, flag_padded, flag_priority, no_priority, HeadersFrame,
  headers_write, headers_read, overhead, block,
}
use cpp_linux_server.Http2.Frame.RoundTrip.{Reads-rest}
use cpp_linux_server.Http2.Frame.Payloads.{
  priority_bytes, IsPriority, Writes-priority, Reads-priority,
}

-- A part that a flag switches.
Writes-optional :
    (b : Bool) {xs : List ℕ} {m : M (Unit {0})}
    → Writes xs m
    → Writes (if b then xs else []) (if b then m else return tt)
Writes-optional true w = w
Writes-optional false w = Writes-return

-- What a flag leaves out has its default value.
abbrev pub Default : {A : Type 0} → Bool → A → A → Type 0
Default true a d = Unit {0}
Default false a d = a ≡ d

Reads-optional :
    {A : Type 0} (b : Bool) (d : A) {xs : List ℕ} {a : A} {m : M A}
    → Reads xs a m
    → Default b a d
    → Reads (if b then xs else []) a (if b then m else return d)
Reads-optional true d r e = r
Reads-optional false d {a} r e = subst (λ x. Reads [] x (return d)) (sym e) (Reads-return d)

-- The wire form of a HEADERS payload: pad length, priority, header block, padding.
abbrev pub headers_bytes : FrameHeader → HeadersFrame → List ℕ
headers_bytes h f =
    (if has h.flags flag_padded then f.pad ∷ [] else [])
    ++ ((if has h.flags flag_priority then priority_bytes f.priority else [])
        ++ (block f ++ (if has h.flags flag_padded then f.padding else [])))

Default-pair :
    {A : Type 0} (b : Bool) (a d : A) → Default b a d → Default {A = A × Bool} b (a, true) (d, true)
Default-pair true a d e = tt
Default-pair false a d e = ap (λ p. (p, true)) e

abbrev pub FitsHeaders : FrameHeader → HeadersFrame → Type 0
FitsHeaders h f =
    (f.pad < 256)
    × (length f.padding ≡ f.pad)
    × IsPriority f.priority
    × (frame_length h ≡ overhead h f.pad + length (block f))
    × Default (has h.flags flag_padded) f.pad 0
    × Default (has h.flags flag_padded) f.padding []
    × Default (has h.flags flag_priority) f.priority no_priority

pub Writes-headers :
    (h : FrameHeader) (f : HeadersFrame)
    → f.pad < 256
    → IsPriority f.priority
    → Writes (headers_bytes h f) (headers_write h f)
unfolding headers_write
Writes-headers h f v w =
    Writes-bind _ _ (Writes-optional (has h.flags flag_padded) (Writes-fuint8 f.pad v)) (
      Writes-bind _ _ (Writes-optional (has h.flags flag_priority) (Writes-priority f.priority w)) (
        Writes-bind (write (block f)) _ (Writes-write (block f))
          (Writes-optional (has h.flags flag_padded) (Writes-write f.padding))))

-- What the receiver of a frame has: the header block as bytes.
abbrev pub received_headers : HeadersFrame → HeadersFrame
received_headers f = record {
  pad = f.pad;
  priority = f.priority;
  content = block f;
  padding = f.padding;
  packed = none;
}

pub Reads-headers :
    (h : FrameHeader) (f : HeadersFrame)
    → FitsHeaders h f
    → Reads (headers_bytes h f) (received_headers f) (headers_read h)
unfolding headers_read
Reads-headers h f v =
    Reads-bind _ _ (Reads-optional (has h.flags flag_padded) 0 (Reads-fuint8 f.pad) v.4) (
      Reads-bind _ _
        (Reads-optional (has h.flags flag_priority) (no_priority, true)
          (Reads-priority f.priority no_priority v.2)
          (Default-pair (has h.flags flag_priority) f.priority no_priority v.6))
        (Reads-bind _ _ (Reads-rest (block f) (frame_length h) (overhead h f.pad) v.3) (
          Reads-map _
            (λ p. record {
              pad = f.pad;
              priority = f.priority;
              content = block f;
              padding = p;
              packed = none;
            })
            (Reads-optional (has h.flags flag_padded) [] (Reads-read f.padding f.pad (sym v.1))
              v.5))))
