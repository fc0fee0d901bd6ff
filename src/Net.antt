-- ===== src/Net.antt =====
-- The parts of Go's packages net and strconv that the tools call.
pub mod Number
pub mod Ip
pub mod IpText
pub mod Network
pub mod Bounds
pub mod RoundTrip
