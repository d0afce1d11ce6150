-- ===== src/Str.antt =====
-- src/str.c: strings, their write buffer, and the escapes of KDL 1 and KDL 2.
pub mod Buffer
pub mod Hex
pub mod Escape
pub mod Escaped
pub mod RoundTripV1
pub mod StandsFor
pub mod HexStandsFor
pub mod RoundTripV2
pub mod UnescapeV1
pub mod UnescapeV2
pub mod Multiline
pub mod Illegal
pub mod Versions
pub mod Lines
pub mod Dedent
