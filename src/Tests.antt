-- ===== src/Tests.antt =====
-- Runs of the definitions at concrete inputs, and the theorems at inputs that meet their hypotheses.
mod Lines
mod Source
mod Inspect
mod S3
mod Stream
mod World
mod Operations
mod Reads
mod Errors
mod Guarded
mod Meter
