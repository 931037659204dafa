-- ===== src/Sqs.antt =====
-- queues/sqs: Amazon's queue service, which the code only calls, and the transports over it.
pub mod Service
pub mod Region
pub mod Publisher
pub mod Subscriber
pub mod Transport
