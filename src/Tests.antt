-- ===== src/Tests.antt =====
-- The theorems at concrete inputs, and runs of the code on such inputs.
mod Codec
mod Space
mod Table
mod Removal
mod Stack
mod Io
mod Caching
mod Opening
mod Routing
mod Settings
mod Dumps
