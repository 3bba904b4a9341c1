-- ===== src/Resp.antt =====
-- internal/core/resp.go and internal/core/command.go: the RESP protocol.
pub mod Value
pub mod Decode
pub mod Encode
pub mod Command
pub mod RoundTrip
pub mod Total
pub mod Strict
