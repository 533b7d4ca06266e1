-- ===== src/Examples.antt =====
-- Tests of the model and instances of its theorems at concrete inputs.
mod Cache
mod Serving
mod Limits
mod Rings
mod Invalidations
mod Monitors
mod Calls
mod Entries
mod Warmups
mod Watching
mod Scanning
