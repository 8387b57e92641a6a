-- ===== src/Tests.antt =====
-- Runs of the definitions on concrete input, and the theorems applied to it.
mod Streams
mod Clients
mod Speaking
mod Connecting
mod Configuring
mod Running
mod Waiting
mod Decoding
mod Uploading
mod Messages
