-- ===== src/Sender.antt =====
-- service/sender.py: the frames that the server writes. The calls that a transport has seen stand
-- in the order in which they were made.
pub mod Transport
pub mod Connection
pub mod Channel
pub mod Content
pub mod Replies
pub mod Wire
pub mod Bits
pub mod Flags
