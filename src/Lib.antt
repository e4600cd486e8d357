-- ===== src/Lib.antt =====
-- Verification library of the runbook's executable models.
--
-- The repository is a runbook with textbooks. Its program text is a set of small Python models, each
-- of one mechanism that a textbook explains, and scripts that check the textbooks. The models do not
-- call one another. Each is modelled in a file of its own below the folder of its textbook; what is
-- proved of it stands there or in that file's children, and runs on its own inputs stand in a Tests file.
--
-- Prelude        shared names: tests, lists over native numbers, dicts and sets, integers, sorting,
--                results of code that may raise
-- Observability  kubernetes/observability/data-pipelines/examples/replay_demo.py: Validate is
--                `validate`, Replay is `simulate`
-- Databases      learning/databases-query-engines/examples: Wal is wal_recovery_model.py, Mvcc is
--                mvcc_model.py, JoinCost is join_cost_model.py
-- Distributed    learning/distributed-systems/examples: Replication is replication_model.py, Raft is
--                raft_commit_model.py, Dedup is retry_dedup_model.py
-- Security       learning/security-cryptography/examples: Nonce is nonce_registry_model.py,
--                Integrity is integrity_model.py, Authorization is
--                authorization_model.py
-- Storage        kubernetes/storage/data-systems-foundations/examples/io_durability_demo.py: Durability
--                is `write_replace_verify`, Payload is `make_payload` and `run_demo`, DirectorySync is
--                `_default_directory_fsync`
-- Algorithms     learning/algorithms/examples: Search and Sort are search_sort_lab.py, Traversal,
--                Tables and ShortestPath are graph_dp_lab.py
-- OperatingSystems learning/operating-systems/examples: Race is race_interleavings.py, Scheduler is
--                scheduler.py, Translation is address_translation.py
-- ComputerArchitecture learning/computer-architecture/examples: Cache is cache_model.py, Pipeline is
--                pipeline_model.py, MemoryOrder is memory_order_model.py
-- Gpu            learning/gpu-operator-dra/examples/allocation_model.py is Allocation, and in
--                learning/gpu-programming/examples Coalescing is coalescing_model.py and Matmul is
--                tiled_matmul_model.py
-- Ubuntu         learning/ubuntu-linux-internals/examples: Ring is ring_lifetime_model.py, Cgroup is
--                cgroup_budget.py, Memory is memory_pressure_model.py
-- Textbooks      learning/validate_docs.py is Fences (`prose_lines`), Headings (`heading_ids`) and
--                References (the loop of `check` over the lines of a document); Lessons, Links and
--                Report are ai/learning/ai-infrastructure/examples/check_lessons.py; Text has the
--                operations of Python on texts that both use
-- Lakehouse      Warehouse is what `main` of learning/apache-iceberg/examples/iceberg_local_lab.py does
--                to the folder of its warehouse
--
-- Functions keep the names that they have in Python. An object that a method changes is a record that
-- the function returns; an exception is the `err` of a Result, or `none`. Python integers are natural
-- numbers where the code passes no negative number or refuses it, and otherwise integers (the prelude's
-- ℤ). A dict is an association list in order of insertion, a set a list tested by `contains`. Module
-- level constants that a function reads are arguments of its model.
--
-- Fuel: `run_period` runs its loop on the budget plus one, since each round that goes on spends some
-- of it. `write_all` runs on the number of bytes, since a turn writes at least one; `binary_search`
-- and `merge_sort` on the length plus one; `nonpreemptive` on the number of jobs plus the last
-- arrival, since a turn runs a job or comes nearer to that arrival. The pipeline runs on twice the
-- length of the program and five more, since a turn brings an instruction nearer to the end or takes
-- away the one bubble that it may cause. `bfs`, `dfs`, `round_robin` and `dijkstra` take their fuel
-- as an argument; how much is enough for the first three stands at their theorems, and the last is
-- only run on inputs. The bases of the tiles run on the length plus one. All other loops run over a
-- list.
--
-- The files and the directory of io_durability_demo.py are the record Platform; what the code relies on
-- is the record IsPlatform, and a platform that writes two bytes at a time has all of it.
--
-- Not modelled: command lines, printing, access to files and processes, the SQL of the Spark and
-- Iceberg labs, and the models whose content is float arithmetic. Of validate_docs.py the chapters
-- and pictures on disk and the heredocs are left out. What ast.parse, bash -n and a run of a snippet
-- answer, unquote and the paths that exist are arguments of the lesson checker.
pub mod Prelude
pub mod Algorithms
pub mod ComputerArchitecture
pub mod Databases
pub mod Distributed
pub mod Gpu
pub mod Lakehouse
pub mod Observability
pub mod OperatingSystems
pub mod Security
pub mod Storage
pub mod Textbooks
pub mod Ubuntu
