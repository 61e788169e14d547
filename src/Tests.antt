-- ===== src/Tests.antt =====
-- Runs of the model on concrete inputs, and the theorems at inputs that meet their hypotheses.
mod Fixtures
mod Masking
mod Frames
mod Texts
mod Connection
mod Plain
mod Requests
mod Readers
mod Clients
mod Listeners
mod Networks
mod Handshakes
mod Openings
mod Responses
