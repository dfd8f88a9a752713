-- ===== src/Tests.antt =====
-- Tests of the model, and each theorem at a concrete input.
mod Fixtures
mod Decryption
mod Handshaking
mod Endings
mod Protocol
mod Streaming
mod Peering
mod Lifetimes
mod Clients
mod Servers
mod Certificates
mod Echoing
