-- ===== src/Client.antt =====
-- The client of client/client.go, whose calls run the handlers of the server over gRPC.
pub mod Remote
pub mod Metadata
pub mod Keys
pub mod Values
pub mod Lists
pub mod Hashes
pub mod Auth
pub mod Ends
pub mod Events
