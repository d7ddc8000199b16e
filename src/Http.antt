-- ===== src/Http.antt =====
-- The proxy that serves the machine's HTTP handlers over gRPC (http/, with the helpers of
-- grpcutils/util.go).
pub mod Header
pub mod Simple
pub mod SimpleTrip
pub mod Message
pub mod Request
pub mod RequestTrip
pub mod Writer
pub mod WriterTrip
pub mod Stream
