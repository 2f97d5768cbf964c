-- ===== src/Messaging.antt =====
-- 07_messaging/01_queues_pubsub_logs.py: the work queue, the topic with subscribers, and the log with
-- partitions and offsets. Names and keys are of types with decidable equality, groups are numbers.
pub mod Queues
pub mod Log
pub mod Reading
pub mod Consumed
pub mod Keys
mod Tests
