-- ===== src/Audio.antt =====
-- internal/audio: the ring of samples and the endless WAV stream.
pub mod Ring
pub mod Wav
