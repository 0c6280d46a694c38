-- ===== src/ChunkClient/Once.antt =====
-- What the client's retries do: nothing, since what they catch is never raised.
use redcloud_files.Base.{zero, suc, ℕ, String, Bool, false, Option, some, List, ◌≡◌, refl, arith}
use redcloud_files.Chunkserver.Storage.{Bytes}
use redcloud_files.Chunkserver.Server.{
  Server, ChunkMetadata, WriteChunkResponse, written, rejected, WriteError,
}
use redcloud_files.ChunkClient.{
  Net, Link, Fate, answered, raising, lost, cut, Code, unavailable, deadline_exceeded,
  chunk_not_found, other_code, Answer, answer, raises, is_transient_error, after_attempt,
  retry_with_backoff, raised_by, rejection, read_response, next_fate, call_write,
  write_chunk_internal, write_chunk,
}

-- an answer that no further attempt follows
abbrev IsFinal : {A : Type 0} → Answer A → Type 0
IsFinal (answer a) = Unit {0}
IsFinal (raises e) = is_transient_error e ≡ false

raised_by-IsFinal : (code : Code) → is_transient_error (raised_by code) ≡ false
unfolding raised_by
raised_by-IsFinal unavailable = refl
raised_by-IsFinal deadline_exceeded = refl
raised_by-IsFinal chunk_not_found = refl
raised_by-IsFinal other_code = refl

read_response-IsFinal :
    (in_message : String → WriteError → Bool) (response : WriteChunkResponse)
    → IsFinal (read_response in_message response)
unfolding read_response rejection
read_response-IsFinal in_message written = tt
read_response-IsFinal in_message (rejected e) = ground arith

call_write-IsFinal :
    (net : Net) (metadata : ChunkMetadata) (bytes : Bytes) (fate : Fate) (fates : List Fate)
    (server : Server)
    → IsFinal (call_write net metadata bytes fate fates server).0
unfolding call_write
call_write-IsFinal net metadata bytes (answered fault) fates server =
    read_response-IsFinal net.in_message _
call_write-IsFinal net metadata bytes (raising n) fates server =
    read_response-IsFinal net.in_message _
call_write-IsFinal net metadata bytes (lost code) fates server = raised_by-IsFinal code
call_write-IsFinal net metadata bytes (cut n code) fates server = raised_by-IsFinal code

after_attempt_final :
    {A : Type 0} (again : Link → Option (Answer A) × Link) (p : Answer A × Link)
    → IsFinal p.0
    → after_attempt again p ≡ (some p.0, p.1)
unfolding after_attempt
after_attempt_final again (answer a, next) h = refl
after_attempt_final again (raises e, next) h = ground arith

retry_final :
    {A : Type 0} (left : ℕ) (operation : Link → Answer A × Link) (link : Link)
    → IsFinal (operation link).0
    → retry_with_backoff (suc left) operation link ≡ (some (operation link).0, (operation link).1)
unfolding retry_with_backoff
retry_final zero operation link h = refl
retry_final (suc left) operation link h = after_attempt_final _ (operation link) h

-- write_chunk makes one call and ends as that call does, whatever becomes of it: an unavailable
-- chunkserver is not tried again.
pub write_chunk_once :
    (net : Net) (chunk_id file_id : String) (chunk_index : ℕ) (bytes : Bytes) (checksum : String)
    (link : Link)
    → write_chunk net chunk_id file_id chunk_index bytes checksum link ≡ (
      some (write_chunk_internal net chunk_id file_id chunk_index bytes checksum link).0,
      (write_chunk_internal net chunk_id file_id chunk_index bytes checksum link).1,
    )
unfolding write_chunk write_chunk_internal next_fate
write_chunk_once net chunk_id file_id chunk_index bytes checksum link =
    retry_final 2 (write_chunk_internal net chunk_id file_id chunk_index bytes checksum) link
      (call_write-IsFinal net _ bytes _ _ link.server)
