-- ===== src/Lib.antt =====
-- RedCloud Files is a distributed file system with tags. Controllers keep the metadata (users, files,
-- tags, chunk rows) in SQLite and replicate it among themselves as operations with vector clocks;
-- chunkservers keep the data of chunks in files with an index and exchange chunks and tombstones; a
-- command line client talks to a controller.
--
-- How the parts interact: a controller gets operations from its peers by push and by the anti-entropy
-- round, which computes the difference of two logs, sorts what it fetched causally and hands each
-- operation to apply_operation. That stores the operation, runs the handler of its type in one
-- transaction, and defers it where the file or user that it needs is not there; a handler that
-- succeeds wakes the operations that wait for what it made. A chunkserver serves uploads, reads and
-- deletions of controllers, and the gossip, tombstones and fetches of its peers, over the same index
-- and files. The file service splits an upload into chunks, writes them to a chunkserver through
-- ChunkserverClient, and records file, tags and chunks with two emitted operations in one transaction;
-- what fails on the way is cleaned up by deleting the chunks or marking them for garbage collection.
-- The client's commands become HTTP requests with retries; routes check the key, call a service, and
-- turn its answer or exception into a status with JSON.
--
-- Files and code:
--   Base           lists, texts, dicts as association lists in insertion order, sets, sorting
--   VectorClock    controller/replication/vector_clock.py (VectorClock: happens_before, increment,
--                  merge, is_concurrent, __eq__)
--   Replication    controller/replication: Operation and Database (common/protocol.py,
--                  controller/database.py), Log (operation_log.py), Users, Files, Tags, Chunks (the
--                  handlers of operation_applier.py), Applier (apply_operation, deferral, retries),
--                  AntiEntropy (anti_entropy_manager.py), Service (grpc_service.py), Emitter
--                  (operation_emitter.py), ChunkGc (chunk_gc_manager.py)
--   Queries        controller/repositories: the queries by tags (file_repository.py,
--                  tag_repository.py)
--   Repositories   controller/repositories: the statements on files and chunks (file_repository.py,
--                  chunk_repository.py)
--   ChunkClient    controller/chunkserver_client.py (ChunkserverClient)
--   FileService    controller/services/file_service.py: uploads and clean-up, Download (download_file,
--                  stream_file_data and the reads of metadata), Deletion (delete_files)
--   AuthService    controller/services/auth_service.py with the statements of user_repository.py
--   Http           controller/main.py (exception handlers), controller/auth.py, controller/routes:
--                  auth_routes.py, Files (file_routes.py), Tags (parse_tags of controller/utils.py)
--   CleanupTask    controller/cleanup_task.py
--   Discovery      common/dns_discovery.py and common/peer_cache.py
--   Protocol       common/protocol.py: to_json and from_json of the messages, over Json; Operations
--                  (between controllers), Chunks (of clients of a chunkserver), Peers (between
--                  chunkservers)
--   TagService     controller/services/tag_service.py with the statements of tag_repository.py
--   Chunkserver    chunkserver: Storage (chunk_storage.py), Checksum (checksum_validator.py),
--                  Index (chunk_index.py), Server (grpc_server.py), Peers
--                  (replication/chunk_replication_service.py and
--                  replication/chunk_anti_entropy_manager.py), History (any interleaving of
--                  their steps)
--   Cli            cli: Parser (parser.py, models.py), Client (controller_client.py: requests)
--                  with Accounts (register and login), Commands (list, delete and tags),
--                  Transfers (add and download), Server and Routes (its requests reach the
--                  controller's routes)
--   Tests          runs on concrete inputs
--
-- State and steps: SQL tables are lists of records in rowid order, and a statement is a function on
-- the list; a transaction that raises loses its writes (Result). A Node is a controller: its tables
-- and the three globals of operation_applier.py. No coroutine called by apply_operation suspends,
-- since the lock it takes is never held across a suspension, so one call is one step. A Server is a
-- chunkserver: the chunk files by chunk id, and the index with its tombstones; a Process of History
-- has the fetches that wait for a peer too, since other handlers run during that await; the other
-- handlers do not suspend between what they read of that state and what they write. A Link is a
-- chunkserver with a list of what becomes of the next calls to it: answered, answered after
-- removing or reading a file raised, lost, or cut off after some messages; calls beyond the list
-- are answered; the Server of the client's requests is a controller with such a list. What a
-- command prints is a value with what stands in the text. A World is the controller's tables with
-- such a link, and with the flag that marking chunks for collection fails. Exceptions that the code
-- logs and drops leave the state of the last step. The names of functions are those of the source
-- without a leading underscore; a gRPC method such as WriteChunk is handle_write_chunk.
--
-- Numbers are naturals where the source has counters, sizes and time stamps, which Python does not
-- bound; sizes in messages are taken to be no less than zero. The chunk index of an entry is an
-- integer, since a rebuilt index has -1 there.
--
-- Bounds and fuel: retries of deferred operations nest, which the model bounds by a depth of two (the
-- result of Replication.Applier.Depth is about any other). Retries of a call or of a deletion recurse on
-- the number of attempts that the code has. The pieces of a chunk are read on fuel of one more than
-- its bytes, since each piece but the last takes at least one.
--
-- Parameters, for what the program takes from outside: the current time as text, SHA-256, SQLite's
-- LIKE over the JSON text of a payload, the age of a time stamp in days, JSON text of the index
-- file, shlex.split, the answers of peers and of DNS, the failure of a write with the number of
-- bytes it left in the file, failures to remove or to read a file, the fates of calls and of
-- requests, the texts of exceptions, text of a JSON value, paths and files of the client, Base64,
-- bcrypt, UUIDs and new API keys.
--
-- Not modelled: HTTP and gRPC transport, the DNS, timers and task start-up, JSON text, logging,
-- validation of requests by FastAPI, the terminal, the configuration file, peer_state. The service
-- name of the chunkservers leads to one chunkserver, and no other call runs while an upload or a
-- deletion waits for it.
pub mod Base
pub mod VectorClock
pub mod Replication
pub mod Protocol
pub mod ChunkClient
pub mod Chunkserver
pub mod Discovery
pub mod CleanupTask
pub mod Queries
pub mod TagService
pub mod Repositories
pub mod AuthService
pub mod Http
pub mod FileService
pub mod Cli
pub mod Tests
