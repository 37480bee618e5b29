-- ===== src/Grpc.antt =====
-- transport/grpc: the wire formats, in children.
pub mod Path
pub mod Lpm
pub mod Message
pub mod Timeout
pub mod Headers
pub mod StatusWire
pub mod Metadata
pub mod Details
pub mod Preface
pub mod Compress
pub mod Call
pub mod Examples
mod HeaderExamples
