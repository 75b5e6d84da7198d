-- ===== src/Http.antt =====
-- source/ota_ws_update_http.c: the web socket handler of an update, and the page handler.
pub mod Keys
pub mod Message
pub mod Json
pub mod Session
pub mod Handler
pub mod TextFrame
pub mod Invariant
pub mod Connection
pub mod Cancel
pub mod Ending
pub mod BeforeEnd
pub mod Rollback
pub mod Upload
pub mod Protocol
pub mod Calls
pub mod Faults
