-- ===== src/Server.antt =====
-- The handlers of mydis.Server over an unknown etcd, one module for each file of mydis/.
pub mod Context
pub mod Waiting
pub mod Keys
pub mod Locks
pub mod Values
pub mod Numbers
pub mod Items
pub mod Lists
pub mod Hashes
pub mod Locked
pub mod Ends
