-- ===== src/ChunkClient.antt =====
-- controller/chunkserver_client.py: the controller's calls of a chunkserver. The calls that a
-- client makes reach the handlers of one chunkserver, unless the network fails them.
pub mod Once
pub mod Stored
use redcloud_files.Base.{
  ℕ, zero, suc, ◌+◌, String, Bool, true, false, ◌||◌, Option, none, some, List, [], ◌∷◌, ◌++◌, map,
  length, take, if◌then◌else◌,
}
use redcloud_files.Chunkserver.Storage.{Bytes, Fault, pieces}
use redcloud_files.Chunkserver.Index.{ℤ, pos}
use redcloud_files.Chunkserver.Server.{
  Server, Outside, ChunkMetadata, WriteChunkRequest, WriteChunkResponse, WriteError, written,
  rejected, ReadChunkResponse, metadata_of, piece_of, Status, done, not_found, internal,
  DeleteChunkResponse, deleted, error_deleting, chunk_not_found as no_chunk, handle_write_chunk,
  handle_read_chunk, handle_delete_chunk,
}

-- the codes of `grpc.RpcError` that the client tells apart
pub data Code : Type 0 where
  unavailable deadline_exceeded chunk_not_found other_code : Code

-- What becomes of a call. It is answered, and a write of the chunkserver's disk may have a fault; it is
-- answered, but what the chunkserver does with a file raises: its removal, or reading it after a
-- number of pieces; it does not reach the chunkserver; or the chunkserver handles it and the answer
-- breaks off after that many messages of a stream, and is lost if the answer is no stream.
pub data Fate : Type 0 where
  answered : Option Fault → Fate
  raising : ℕ → Fate
  lost : Code → Fate
  cut : ℕ → Code → Fate

-- the chunkserver, and what becomes of the calls to come; those after the last are answered
pub record Link : Type 0 where
  pub server : Server
  pub fates : List Fate

unfoldable pub next_fate : List Fate → Fate × List Fate
next_fate [] = (answered none, [])
next_fate (fate ∷ fates) = (fate, fates)

-- controller/exceptions.py, `grpc.RpcError`, and any other exception
pub data Exception : Type 0 where
  user_already_exists invalid_credentials : Exception
  file_not_found unauthorized_access chunkserver_unavailable : Exception
  empty_tag_list storage_full checksum_mismatch : Exception
  rpc_error : Code → Exception
  other_exception : Exception

pub data Answer {ℓ} (A : Type ℓ) : Type ℓ where
  answer : A → Answer A
  raises : Exception → Answer A

-- `e.code() in (UNAVAILABLE, DEADLINE_EXCEEDED)`
abbrev pub is_transient : Code → Bool
is_transient unavailable = true
is_transient deadline_exceeded = true
is_transient _ = false

abbrev pub is_transient_error : Exception → Bool
is_transient_error (rpc_error code) = is_transient code
is_transient_error _ = false

-- what follows an attempt that is not the last
unfoldable pub after_attempt :
    {A : Type 0} → (Link → Option (Answer A) × Link) → Answer A × Link → Option (Answer A) × Link
after_attempt again (answer a, next) = (some (answer a), next)
after_attempt again (raises e, next) =
    if is_transient_error e then again next else (some (raises e), next)

-- The attempts left stand for `range(max_retries)`; `sleep` is left out. Without any the loop ends and
-- the function returns None, which is no case of `max_retries=3`.
unfoldable pub retry_with_backoff :
    {A : Type 0} → ℕ → (Link → Answer A × Link) → Link → Option (Answer A) × Link
retry_with_backoff zero operation link = (none, link)
retry_with_backoff (suc zero) operation link =
    let (result, next) = operation link in (some result, next)
retry_with_backoff (suc (suc left)) operation link =
    after_attempt (retry_with_backoff (suc left) operation) (operation link)

unfoldable pub raised_by : Code → Exception
raised_by code = if is_transient code then chunkserver_unavailable else rpc_error code

unfoldable pub read_raised_by : Code → Exception
read_raised_by chunk_not_found = file_not_found
read_raised_by code = raised_by code

-- `in_message word e` stands for `word in response.error_message.lower()`
unfoldable pub rejection : (String → WriteError → Bool) → WriteError → Exception
rejection in_message e =
    if in_message "checksum" e
    then checksum_mismatch
    else if in_message "disk full" e || in_message "no space" e
    then storage_full
    else other_exception

unfoldable pub read_response : (String → WriteError → Bool) → WriteChunkResponse → Answer Bool
read_response in_message written = answer true
read_response in_message (rejected e) = raises (rejection in_message e)

-- what the program takes from outside: the chunkserver's surroundings, STREAM_PIECE_SIZE_BYTES, and
-- what the chunkserver's error messages say
pub record Net : Type 0 where
  pub outside : Outside
  pub piece_size : ℕ
  pub in_message : String → WriteError → Bool

abbrev pub piece_request : Bytes → Option WriteChunkRequest
piece_request piece = some (record { metadata = none; piece = some piece })

-- request_generator: the pieces `data[i:i + STREAM_PIECE_SIZE_BYTES]`
unfoldable pub request_generator : ℕ → ChunkMetadata → Bytes → List (Option WriteChunkRequest)
request_generator piece_size metadata bytes =
    some (record { metadata = some metadata; piece = none })
    ∷ map piece_request (pieces (suc (length bytes)) piece_size bytes)

abbrev pub metadata_for : String → String → ℕ → Bytes → String → ChunkMetadata
metadata_for chunk_id file_id chunk_index bytes checksum = record {
  chunk_id = chunk_id;
  file_id = file_id;
  chunk_index = pos chunk_index;
  total_size = length bytes;
  checksum = checksum;
}

-- the pieces that the loop over the responses yields
unfoldable pub yielded : List ReadChunkResponse → List Bytes
yielded [] = []
yielded (metadata_of m ∷ rest) = yielded rest
yielded (piece_of piece ∷ rest) = piece ∷ yielded rest

-- how a stream ends: by itself, or by an exception
unfoldable pub ending : Status → Option Exception
ending done = none
ending not_found = some file_not_found
ending internal = some (rpc_error other_code)

-- `response.success`
unfoldable pub is_success : DeleteChunkResponse → Bool
is_success deleted = true
is_success no_chunk = true
is_success error_deleting = false

module _ (net : Net) where
  unfoldable pub call_write : ChunkMetadata → Bytes → Fate → List Fate → Server → Answer Bool × Link
  call_write metadata bytes (answered fault) fates server =
      let (response, next) =
        handle_write_chunk net.outside fault (request_generator net.piece_size metadata bytes)
          server in
      (read_response net.in_message response, record { server = next; fates = fates })
  call_write metadata bytes (raising n) fates server =
      let (response, next) =
        handle_write_chunk net.outside none (request_generator net.piece_size metadata bytes)
          server in
      (read_response net.in_message response, record { server = next; fates = fates })
  call_write metadata bytes (lost code) fates server =
      (raises (raised_by code), record { server = server; fates = fates })
  call_write metadata bytes (cut n code) fates server =
      let (response, next) =
        handle_write_chunk net.outside none (request_generator net.piece_size metadata bytes)
          server in
      (raises (raised_by code), record { server = next; fates = fates })

  unfoldable pub write_chunk_internal :
      String → String → ℕ → Bytes → String → Link → Answer Bool × Link
  write_chunk_internal chunk_id file_id chunk_index bytes checksum link =
      let (fate, fates) = next_fate link.fates in
      call_write (metadata_for chunk_id file_id chunk_index bytes checksum) bytes fate fates
        link.server

  unfoldable pub write_chunk :
      String → String → ℕ → Bytes → String → Link → Option (Answer Bool) × Link
  write_chunk chunk_id file_id chunk_index bytes checksum link =
      retry_with_backoff 3 (write_chunk_internal chunk_id file_id chunk_index bytes checksum) link

  unfoldable pub call_delete : String → Fate → List Fate → Server → Answer Bool × Link
  call_delete chunk_id (answered fault) fates server =
      let (response, next) = handle_delete_chunk net.outside false chunk_id server in
      (answer (is_success response), record { server = next; fates = fates })
  call_delete chunk_id (raising n) fates server =
      let (response, next) = handle_delete_chunk net.outside true chunk_id server in
      (answer (is_success response), record { server = next; fates = fates })
  call_delete chunk_id (lost code) fates server =
      (raises (raised_by code), record { server = server; fates = fates })
  call_delete chunk_id (cut n code) fates server = (
    raises (raised_by code),
    record { server = (handle_delete_chunk net.outside false chunk_id server).1; fates = fates },
  )

  unfoldable pub delete_chunk : String → Link → Answer Bool × Link
  delete_chunk chunk_id link =
      let (fate, fates) = next_fate link.fates in call_delete chunk_id fate fates link.server

  unfoldable pub call_read : String → Fate → Server → List Bytes × Option Exception
  call_read chunk_id (answered fault) server =
      let (responses, status) = handle_read_chunk net.piece_size none chunk_id server in
      (yielded responses, ending status)
  call_read chunk_id (raising n) server =
      let (responses, status) = handle_read_chunk net.piece_size (some n) chunk_id server in
      (yielded responses, ending status)
  call_read chunk_id (lost code) server = ([], some (read_raised_by code))
  call_read chunk_id (cut n code) server =
      let (responses, status) = handle_read_chunk net.piece_size none chunk_id server in
      (yielded (take n responses), some (read_raised_by code))

  -- what the generator yields, and the exception that ends it
  unfoldable pub read_chunk : String → Link → (List Bytes × Option Exception) × Link
  read_chunk chunk_id link =
      let (fate, fates) = next_fate link.fates in
      (call_read chunk_id fate link.server, record link { fates = fates })

-- False where the call fails, for whatever reason; the chunkserver answers True
unfoldable pub call_ping : Fate → Bool
call_ping (answered fault) = true
call_ping (raising n) = true
call_ping (lost code) = false
call_ping (cut n code) = false

unfoldable pub ping : Link → Bool × Link
ping link =
    let (fate, fates) = next_fate link.fates in (call_ping fate, record link { fates = fates })
