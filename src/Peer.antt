-- ===== src/Peer.antt =====
-- pkg/peer: the runtime protocol between a Hub and an Agent: its frames, its messages, the table of
-- the requests that wait for an answer, and the Agent's cache of outcomes.
pub mod Frame
pub mod Protocol
pub mod Requests
pub mod Dispatch
pub mod Relay
pub mod Connection
pub mod Bridge
mod Tests
