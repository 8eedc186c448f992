-- ===== src/Alac.antt =====
-- internal/alac: the Apple Lossless decoder.
pub mod Result
pub mod Bits
pub mod Golomb
pub mod Predictor
pub mod Decoder
mod Tests
