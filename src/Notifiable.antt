-- ===== src/Notifiable.antt =====
-- src/notifiable_client: the client that numbers its requests and checks what comes back.
pub mod Message
pub mod RoundTrip
pub mod Validator
pub mod Verdicts
pub mod Stream
pub mod Splitting
pub mod Threads
pub mod Sending
pub mod Receiving
pub mod Client
pub mod Lifecycle
