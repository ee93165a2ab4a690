-- ===== src/Tests.antt =====
-- Runs of the modelled code, and instances of the theorems at concrete inputs.
mod Files
mod Created
mod Lexing
mod Parsing
mod Flushing
mod Timers
mod Buffers
mod Storage
