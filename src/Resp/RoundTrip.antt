-- ===== src/Resp/RoundTrip.antt =====
-- What `Encode` writes is what `DecodeOne` reads: of internal/core/resp.go.
pub mod Number
pub mod Values
pub mod Commands
