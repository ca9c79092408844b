-- ===== src/Wire.antt =====
-- The datagrams of the tunnel (c/src/t2u_internal.h): words in the two byte orders, the packed
-- header, and the 64-bit conversions, which depend on the platform.
pub mod Words
pub mod Message
pub mod RoundTrip
