-- ===== src/Cli/Client/Transfers.antt =====
-- cli/controller_client.py: add_files and download. The bar of progress, the delays' messages and
-- the time limit of an upload are left out; so are a disk that fails, and the number of attempts in the
-- message of a download's error.
use redcloud_files.Base.{
  ℕ, suc, String, Bool, true, false, not, ◌&&◌, Option, none, some, List, [], ◌∷◌, if◌then◌else◌,
  ◌==◌, leb, ltb, length,
}
use redcloud_files.Base.Dict
use redcloud_files.Chunkserver.Storage.{Bytes}
use redcloud_files.Chunkserver.Storage.Pieces.{concat}
use redcloud_files.Protocol.Json.{Json, ◌>>=◌, get_str, get_nat, get_strs}
use redcloud_files.Http.{text, Response}
use redcloud_files.Http.Tags.{join_tags}
use redcloud_files.Cli.Client.{
  Outcome, responds, connect_error, timeout_exception, other_exception, Reply, returned, raised,
  Raised, not_caught, RetryConfig, Client, should_retry_for_consistency, attempts_from,
  format_error,
}
use redcloud_files.Cli.Client.Server.{Failure, reported}
use redcloud_files.Cli.Client.Commands.{get_auth_header, data_of}

-- what the client finds at a path to upload: an error of `_normalize_upload_path`, nothing, a
-- directory, or a file with its base name
pub data Local : Type 0 where
  path_error : String → Local
  missing not_a_file : Local
  file : (filename : String) (bytes : Bytes) → Local

pub data Added : Type 0 where
  refused_path : (path_error : String) → Added
  file_not_found_at not_a_file_at empty_file_at : (file_path : String) → Added
  added : (name file_id : String) (size : ℕ) (tags : List String) → Added
  error_uploading : (file_path last_error : String) → Added
  upload_broken : (file_path : String) → Raised → Added

-- what an upload tries again, if attempts are left
unfoldable pub is_upload_retried : Outcome → Bool
is_upload_retried (responds response) = leb 500 response.status_code
is_upload_retried connect_error = true
is_upload_retried timeout_exception = true
is_upload_retried other_exception = false

unfoldable pub read_added : Json → Option Added
read_added result = do
  name ← get_str "name" result
  file_id ← get_str "file_id" result
  size ← get_nat "size" result
  tags ← get_strs "tags" result
  some (added name file_id size tags)

unfoldable pub or_broken : String → Option Added → Added
or_broken file_path none = upload_broken file_path not_caught
or_broken file_path (some a) = a

unfoldable pub added_reply : (Json → String) → String → Reply → Added
added_reply str_json file_path (raised e) = upload_broken file_path e
added_reply str_json file_path (returned response) =
    if response.status_code == 201
    then or_broken file_path (data_of response >>= read_added)
    else error_uploading file_path (format_error str_json response)

-- `POST /files` with the header, the file's name and bytes, and the tags
abbrev pub PostFile : Type 0 → Type 0
PostFile S = String → String → Bytes → String → S → Outcome × S

module _ {S : Type 0} (str_json : Json → String) (config : RetryConfig) (post : PostFile S)
    (look : String → Local) where
  unfoldable pub add_file : String → List String → String → S → Added × S
  add_file header tags file_path s = elim (look file_path) [
    | path_error e ↦ (refused_path e, s)
    | missing ↦ (file_not_found_at file_path, s)
    | not_a_file ↦ (not_a_file_at file_path, s)
    | file filename [] ↦ (empty_file_at file_path, s)
    | file filename (b ∷ bytes) ↦
        let t =
          attempts_from is_upload_retried config.retry_backoff_multiplier (suc config.max_retries)
            (post header filename (b ∷ bytes) (join_tags tags)) 0 config.max_retries s in
        (added_reply str_json file_path t.result, t.state)
  ]

  unfoldable pub add_each : String → List String → List String → S → List Added × S
  add_each header tags [] s = ([], s)
  add_each header tags (file_path ∷ file_paths) s =
      let (result, next) = add_file header tags file_path s in
      let (results, last) = add_each header tags file_paths next in (result ∷ results, last)

  -- none where there is no key
  unfoldable pub add_with :
      Option String → List String → List String → Client S → Option (List Added) × Client S
  add_with none file_paths tags c = (none, c)
  add_with (some header) file_paths tags c =
      let (results, last) = add_each header tags file_paths c.state in
      (some results, record c { state = last })

  unfoldable pub add_files : List String → List String → Client S → Option (List Added) × Client S
  add_files file_paths tags c = add_with (get_auth_header c.api_key) file_paths tags c

-- How a streamed request goes: it fails; or it is answered with a status and a body, of which these
-- pieces arrive, with the Content-Length (0 if there is none) and what breaks the body off.
pub data Stream : Type 0 where
  no_answer : Failure → Stream
  stream : Response → (total_size : ℕ) (received : List Bytes) (broken_by : Option Failure) → Stream

-- `response.json()` of a stream that has not been read raises, and no code is found.
abbrev pub unread : Response → Response
unread response = record response { body = text "" }

unfoldable pub is_download_retried : Outcome → Bool
is_download_retried (responds response) =
    not (response.status_code == 200)
    && (if leb 500 response.status_code
        then true
        else should_retry_for_consistency (unread response))
is_download_retried connect_error = true
is_download_retried timeout_exception = true
is_download_retried other_exception = false

pub data Downloaded : Type 0 where
  not_logged_in : Downloaded
  path_refused : (error : String) → Downloaded
  downloaded : (filename : String) (size : ℕ) (output_file : String) → Downloaded
  download_error : String → Downloaded
  download_broken : Raised → Downloaded

-- the directory of downloads, what answers requests, and the size that is printed in the end
pub record Saving (S : Type 0) : Type 0 where
  pub disk : Dict.Dict Bytes
  pub server : S
  pub printed_size : ℕ

-- A stream is written to the file, which is emptied first.
unfoldable pub write_stream :
    {S : Type 0}
    → Option String
    → Response
    → ℕ
    → List Bytes
    → Option Failure
    → S
    → Dict.Dict Bytes
    → Outcome × Saving S
write_stream none response total received broken_by next disk =
    (responds response, record { disk = disk; server = next; printed_size = 0 })
write_stream (some output_file) response total received none next disk = (
  responds response,
  record {
    disk = Dict.insert output_file (concat received) disk;
    server = next;
    printed_size = if ltb 0 total then total else length (concat received);
  },
)
write_stream (some output_file) response total received (some failure) next disk = (
  reported failure,
  record { disk = Dict.insert output_file (concat received) disk; server = next; printed_size = 0 },
)

unfoldable pub save :
    {S : Type 0} → Option String → Stream × S → Dict.Dict Bytes → Outcome × Saving S
save target (no_answer failure, next) disk =
    (reported failure, record { disk = disk; server = next; printed_size = 0 })
save target (stream response total received broken_by, next) disk =
    if response.status_code == 200
    then write_stream target response total received broken_by next disk
    else (responds response, record { disk = disk; server = next; printed_size = 0 })

module _ {S : Type 0} (str_json : Json → String) (config : RetryConfig)
    (get : String → String → S → Stream × S) where
  -- `target` is the path of `_normalize_download_path`, none if it refuses the path with the error
  unfoldable pub downloaded_reply : String → Option String → String → ℕ → Reply → Downloaded
  downloaded_reply filename target error size (raised e) = download_broken e
  downloaded_reply filename target error size (returned response) =
      if response.status_code == 200
      then elim target [
        | none ↦ path_refused error
        | some output_file ↦ downloaded filename size output_file
      ]
      else download_error (format_error str_json response)

  unfoldable pub download_with :
      Option String → String → Option String → String → Saving S → Downloaded × Saving S
  download_with none filename target error s = (not_logged_in, s)
  download_with (some header) filename target error s =
      let t =
        attempts_from is_download_retried config.retry_backoff_multiplier (suc config.max_retries)
          (λ (saving : Saving S). save target (get header filename saving.server) saving.disk) 0
          config.max_retries s in
      (downloaded_reply filename target error t.state.printed_size t.result, t.state)

  unfoldable pub download :
      Option String → String → Option String → String → Saving S → Downloaded × Saving S
  download api_key filename target error s =
      download_with (get_auth_header api_key) filename target error s
