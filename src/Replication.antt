-- ===== src/Replication.antt =====
-- internal/praefect/datastore: replication jobs and the queue that holds them.
pub mod Types
pub mod Queue
