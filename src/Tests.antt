-- ===== src/Tests.antt =====
-- Tests of the definitions, and the theorems applied to concrete states.
mod Wire
mod Receiving
mod Sending
mod Devices
mod Numbers
mod Buffers
mod Ports
mod Starts
