-- ===== src/Http2/DynamicTable/Static.antt =====
-- chat/http2/dynamic_table.cc: the static table of HPACK, with the empty entry 0.
use Prim.Native.String.{String, [] as empty, ◌∷◌ as char_then}
use Prim.Native.Char.{code}
use cpp_linux_server.Base.{ℕ, List, [], ◌∷◌}

-- A std::string is the list of its bytes.
abbrev pub Bytes : Type 0
Bytes = List ℕ

abbrev pub Pair : Type 0
Pair = Bytes × Bytes

-- The bytes of an ASCII literal.
unfoldable pub bytes : String → Bytes
bytes empty = []
bytes (char_then c s) = code c ∷ bytes s

unfoldable pub entry : String → String → Pair
unfolding bytes
entry name value = (bytes name, bytes value)

unfoldable pub static_headers : List Pair
unfolding entry
static_headers =
    entry "" ""
    ∷ entry ":authority" ""
    ∷ entry ":method" "GET"
    ∷ entry ":method" "POST"
    ∷ entry ":path" "/"
    ∷ entry ":path" "/index.html"
    ∷ entry ":scheme" "http"
    ∷ entry ":scheme" "https"
    ∷ entry ":status" "200"
    ∷ entry ":status" "204"
    ∷ entry ":status" "206"
    ∷ entry ":status" "304"
    ∷ entry ":status" "400"
    ∷ entry ":status" "404"
    ∷ entry ":status" "500"
    ∷ entry "accept-charset" ""
    ∷ entry "accept-encoding" "gzip, deflate"
    ∷ entry "accept-language" ""
    ∷ entry "accept-ranges" ""
    ∷ entry "accept" ""
    ∷ entry "access-control-allow-origin" ""
    ∷ entry "age" ""
    ∷ entry "allow" ""
    ∷ entry "authorization" ""
    ∷ entry "cache-control" ""
    ∷ entry "content-disposition" ""
    ∷ entry "content-encoding" ""
    ∷ entry "content-language" ""
    ∷ entry "content-length" ""
    ∷ entry "content-location" ""
    ∷ entry "content-range" ""
    ∷ entry "content-type" ""
    ∷ entry "cookie" ""
    ∷ entry "date" ""
    ∷ entry "etag" ""
    ∷ entry "expect" ""
    ∷ entry "expires" ""
    ∷ entry "from" ""
    ∷ entry "host" ""
    ∷ entry "if-match" ""
    ∷ entry "if-modified-since" ""
    ∷ entry "if-none-match" ""
    ∷ entry "if-range" ""
    ∷ entry "if-unmodified-since" ""
    ∷ entry "last-modified" ""
    ∷ entry "link" ""
    ∷ entry "location" ""
    ∷ entry "max-forwards" ""
    ∷ entry "proxy-authenticate" ""
    ∷ entry "proxy-authorization" ""
    ∷ entry "range" ""
    ∷ entry "referer" ""
    ∷ entry "refresh" ""
    ∷ entry "retry-after" ""
    ∷ entry "server" ""
    ∷ entry "set-cookie" ""
    ∷ entry "strict-transport-security" ""
    ∷ entry "transfer-encoding" ""
    ∷ entry "user-agent" ""
    ∷ entry "vary" ""
    ∷ entry "via" ""
    ∷ entry "www-authenticate" ""
    ∷ []
