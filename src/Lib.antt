-- ===== src/Lib.antt =====
-- Learn System Design: a model of the running code of the lessons, and what it does.
--
-- The repository is a course. Each lesson is one Python file with a docstring, a few classes or
-- functions, and a demo under `if __name__ == "__main__"` that prints. The lessons do not import each
-- other, so each part below is self-contained; what they share is the way that they are modelled.
--
-- Parts, by file of the repository:
-- - Raft: 06_distributed_systems/03_raft_consensus.py. Raft.Node is `RaftNode`, one function for each
--   of its methods (`on_RequestVote` is `on_request_vote`, and so on), from a node to a node and the
--   messages that it sends; Raft.Node.Log is what it does to a log. Raft.Cluster is `Cluster`: messages
--   in flight, delivery, ticks, and the demo's submits, crashes and restarts as actions.
--   Raft.Election and Raft.Replication hold the proofs.
-- - LsmTree: `BloomFilter` (LsmTree.Bloom), `SSTable` (LsmTree.Table) and `LSMTree` of
--   05_databases/03_indexes_btree_vs_lsm.py. Its get uses the tables, which use the filter.
-- - Transactions: 06_distributed_systems/04_distributed_transactions_2pc_saga.py. TwoPhase is
--   `Participant` and `two_phase_commit`, Saga is `Services` and `run_saga`.
-- - EventSourcing: 09_architecture/02_event_sourcing_cqrs.py. The store publishes to the projections;
--   EventSourcing.Commands is the command handler under the demo's loop.
-- - Clocks: the vector clocks, `GCounter` and, in Clocks.Lamport, `LamportNode` with the messages that
--   nodes pass, of 06_distributed_systems/02_clocks_ordering_crdts.py.
-- - UniqueId: 06_distributed_systems/09_unique_id_generation.py. Snowflake and Tickets.
-- - Locks: 06_distributed_systems/08_distributed_locks_leases.py. `LockService` and `Storage`.
-- - UrlShortener: 11_case_studies/01_url_shortener.py. Base62 is the codes of numbers, Scramble the
--   Feistel network and its cycle walk, Cache the `LRUCache`, and Server the allocator, the server and
--   the hashed codes. `scramble` and `hash_based_code` take fuel: the first as many steps as there are
--   numbers of 42 bits, the second any number of attempts.
-- - Caching: 04_caching/02_caching_strategies.py. The database, the cache and the four strategies, and
--   in Caching.Calls the calls that `simulate` makes.
-- - Chat: 11_case_studies/03_chat_system.py. The store, the clients, the gateways and the service in one
--   state; Chat.Actions is what the demo does with them.
-- - Replication: `ReplicatedDB` of 05_databases/04_replication.py; Replication.Failover is what its `run`
--   does. A follower's backlog stands beside the follower.
-- - Messaging: 07_messaging/01_queues_pubsub_logs.py. Queues is `WorkQueue` and `PubSubTopic`, Log is
--   `KafkaLikeTopic` and what its callers do with it.
-- - HashRing: 03_load_balancing/02_consistent_hashing.py. The ring, and the modulo hashing beside it.
-- - Idempotency: 07_messaging/03_idempotency.py. The consumers of messages, over the two tables of the
--   database, and `PaymentAPI`.
-- - NewsFeed: 11_case_studies/02_news_feed.py. The network, and the pull, push and hybrid feeds as one
--   function for each of their methods, by class.
-- - BookApi: the handlers of 02_networking/03_http_and_api_design.py over its tables, and the client's loop
--   over the pages. The loop takes fuel, one unit a round.
-- - Quorum: 06_distributed_systems/01_quorum_replication.py. Replicas and the store, with the actions of the
--   demo: puts, gets, and replicas that go down and come up.
-- - Balancers: the servers and the strategies of 03_load_balancing/01_load_balancers.py. What a float
--   quotient, `rng.sample` and `zlib.crc32` give are arguments.
-- - Sharding: the three sharders of 05_databases/05_sharding_partitioning.py, with `stable_hash` as an argument.
-- - Eviction: the three caches of 04_caching/01_eviction_policies_lru_lfu.py. The LRU cache's nodes are
--   addresses whose fields are functions; its walk of the nodes takes fuel, more than there are nodes.
-- - RateLimit: the five limiters of 08_reliability/01_rate_limiting.py, a file each. The token bucket and the
--   leaky bucket are over any numbers with the operations that the code calls (RateLimit.Numbers); what is
--   proved of them is proved of numbers that do not round. A window has a length: at 0 Python raises.
-- - CircuitBreaker: 08_reliability/02_circuit_breaker.py; Service is its FlakyService and `run`.
-- - Prelude: the shared names, Python's dict (Prelude.Dict), signed integers (Prelude.Int), bits
--   (Prelude.Bits), Boolean tests (Prelude.Tests), lists (Prelude.Lists), lists of distinct numbers
--   (Prelude.Distinct) and functions updated at a place (Prelude.Maps).
--
-- How the code is carried over:
-- - A method that changes its object is a function from the object's record to a new one, with the
--   method's result beside it. A raised exception or a failed assert is `none` or a constructor.
-- - A float time or amount is a whole number of a small unit, and a rate is a whole number of units, except
--   in the two buckets of RateLimit.
-- - The random generator is a function `randint k lo hi` of the number of the draw, a clock is the list
--   of its readings, and a hash is a function: the theorems hold for all of them.
-- - A dict is a list of pairs in insertion order, or a function where every key is present.
-- - Keys that the source spells as strings are numbers, or any type with decidable equality.
-- - Loops are recursion on the list that the loop goes through, or on the range, and take fuel only in
--   UrlShortener, in the loop over the pages of BookApi and in the walk of the LRU cache. The wait of
--   `Snowflake.next_id` goes through the clock's readings and ends with them.
--
-- Not modelled: printing, the demos' fixed scenarios except where a run needs them as a test, random
-- workloads and their statistics, threads, sqlite, and the lessons that only measure or simulate.
pub mod Prelude
pub mod RateLimit
pub mod CircuitBreaker
pub mod UniqueId
pub mod Locks
pub mod Raft
pub mod EventSourcing
pub mod Transactions
pub mod LsmTree
pub mod Clocks
pub mod UrlShortener
pub mod Caching
pub mod Chat
pub mod Replication
pub mod Messaging
pub mod HashRing
pub mod Idempotency
pub mod NewsFeed
pub mod BookApi
pub mod Quorum
pub mod Eviction
pub mod Balancers
pub mod Sharding
