-- ===== src/Http2.antt =====
-- chat/http2: frames, header compression, streams.
pub mod Frame
pub mod DynamicTable
pub mod Hpack
