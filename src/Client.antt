-- ===== src/Client.antt =====
-- robots-client.cpp: the client.
pub mod Requests
pub mod Stream
pub mod State
pub mod Reading
pub mod Display
pub mod Session
pub mod Keys
pub mod Address
pub mod Options
pub mod Program
