-- ===== src/Bufio.antt =====
-- The standard library's `bufio.Writer` and `bufio.Reader` over the transport.
pub mod Output
pub mod Input
