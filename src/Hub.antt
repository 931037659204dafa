-- ===== src/Hub.antt =====
-- What the transports of queues/ share: the two maps of channels, the error channel with its
-- buffer of ten, and the text of `Send` and `Receive`, which is the same in each of them. A channel
-- is a number, given in the order of the `make` calls. The mutex makes each call one step. A call
-- that cannot go on, because the error channel is full, is `none`.
pub mod Defs
pub mod Caching
pub mod Distinct
pub mod Logs
pub mod Owning
pub mod Runs
pub mod Waiting
mod Examples
unfoldable pub use Defs.*
