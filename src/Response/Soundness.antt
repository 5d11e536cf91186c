-- ===== src/Response/Soundness.antt =====
-- What holds of every row of the response tables, and how an operation may change them.
pub mod States
pub mod Change
pub mod Rules
pub mod Deciding
pub mod Closing
pub mod Claiming
pub mod Settling
pub mod Recovering
pub mod Checking
pub mod Invariant
pub mod Once
pub mod History
pub mod Sends
