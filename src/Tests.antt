-- ===== src/Tests.antt =====
-- Runs at concrete inputs: the examples of the theorems, and published test vectors.
mod Codecs
mod Formats
mod Hashes
mod Wire
mod Engines
mod Sessions
