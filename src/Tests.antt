-- ===== src/Tests.antt =====
-- The theorems at concrete inputs, and runs of the code on known values.
mod Buffers
mod Queue
mod Text
mod Numbers
mod Addresses
mod Randomness
mod Ssl
mod Signals
mod Measures
mod Encoded
mod Interfaces
