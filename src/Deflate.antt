-- ===== src/Deflate.antt =====
-- deflate/: the compression history and the compressor. The decompressor is not modelled.
pub mod Window
pub mod Compressor
mod Tests
