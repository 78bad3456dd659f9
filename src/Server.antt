-- ===== src/Server.antt =====
-- crates/flow-server/src: the actors of the server.
pub mod Token
pub mod Events
pub mod RunWorker
pub mod Strip
pub mod RunLog
pub mod Signer
pub mod SameLogic
pub mod UserWorker
pub mod AddressBook
pub mod DbWorker
mod Tests
mod RunTests
mod UserTests
