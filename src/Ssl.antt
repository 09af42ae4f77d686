-- ===== src/Ssl.antt =====
-- TLS over a raw transport, as talyn/loop.py does it: the transport that the application writes to
-- (`_SSLTransportWrapper`) and the protocol classes that drive the SSL object between the raw
-- transport and the application's protocol.
pub mod State
pub mod Bio
pub mod Wrapper
pub mod Protocol
pub mod Laws
pub mod Plaintext
pub mod Rounds
pub mod Reading
pub mod Flushing
pub mod Draining
pub mod Order
pub mod Channel
pub mod Ciphertext
pub mod Shutdown
pub mod Keeping
pub mod Stable
pub mod Inbound
pub mod EndToEnd
pub mod Lifecycle
pub mod Untouched
pub mod Handshake
pub mod Connect
pub mod Upgrade
pub mod Factories
pub mod Setup
pub mod Delegates
pub mod Secure
mod Tests
