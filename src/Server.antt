-- ===== src/Server.antt =====
-- src/nd45_dtsu666/dtsu_server.py: the DTSU666 output server. Its parts: the encoding of a
-- canonical sample into the served registers, the static identity registers, the RTU frames seen
-- on the wire, the read requests seen by the datastore, and the supervisor of the transport.
pub mod Encode
pub mod Identity
pub mod Context
pub mod Frames
pub mod Activity
pub mod Supervisor
