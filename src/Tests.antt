-- ===== src/Tests.antt =====
-- Concrete inputs: tests of the definitions, and cases in which the theorems' hypotheses hold.
pub mod Chip
pub mod Tokens
pub mod Known
pub mod Frames
pub mod Http
pub mod Update
pub mod Web
pub mod Json
pub mod Encrypted
pub mod Buttons
pub mod User
pub mod BeforeEnd
pub mod Page
pub mod PreEncrypted
pub mod Protocol
pub mod Boot
pub mod EncryptedBoot
pub mod Outcome
pub mod Settle
