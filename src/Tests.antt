-- ===== src/Tests.antt =====
-- The theorems at concrete inputs, with concrete floats and a concrete datastore.
mod Numbers
mod Memory
mod Codec
mod Wire
mod Supervising
mod Serving
mod Sources
mod Hub
mod Metrics
mod Bench
mod Loading
mod HubReady
mod Feeders
mod Watching
