-- ===== src/Cli/Client/Commands.antt =====
-- cli/controller_client.py: list_files, delete_files, add_tags and delete_tags.
use redcloud_files.Base.{
  ℕ, zero, String, Option, none, some, List, [], ◌∷◌, if◌then◌else◌, ◌==◌, str_eq,
}
use Prim.Native.String.{◌++◌}
use redcloud_files.Protocol.Json.{Json, object, ◌>>=◌, get_str, get_nat, get_strs, get_messages}
use redcloud_files.Http.{json, text, Response}
use redcloud_files.Http.Tags.{join_tags}
use redcloud_files.Cli.Client.{
  Outcome, Reply, returned, raised, Raised, not_caught, RetryConfig, request_with_retry, Client,
  format_error,
}

-- the requests that carry the header with the API key
pub data Request : Type 0 where
  get_files delete_files_request : (tags : String) → Request
  post_tags : (query_tags new_tags : List String) → Request
  delete_tags_request : (query_tags tags_to_remove : List String) → Request

pub record Listed : Type 0 where
  pub name : String
  pub file_id : String
  pub size : ℕ
  pub tags : List String
  pub created_at : String

pub record Skipped : Type 0 where
  pub name : String
  pub file_id : String
  pub current_tags : List String

-- What a command prints, with the values in it; their layout is left out.
pub data Shown : Type 0 where
  not_logged_in : Shown
  no_files_found : (tags : List String) → Shown
  found_files : List Listed → Shown
  no_files_deleted no_files_updated : Shown
  deleted_files : (deleted_count : ℕ) (file_ids : List String) → Shown
  added_tags : (new_tags : List String) (updated_count : ℕ) (file_ids : List String) → Shown
  removed_tags :
      (tags_to_remove : List String) (updated_count : ℕ) (file_ids : List String)
      (skipped_files : List Skipped)
      → Shown
  error : String → Shown
  connection_error : Raised → Shown
  unexpected_error : Shown

-- `_get_auth_header`
unfoldable pub get_auth_header : Option String → Option String
get_auth_header none = none
get_auth_header (some api_key) = if str_eq api_key "" then none else some ("Bearer " ++ api_key)

-- `response.json()`, where it is an object
unfoldable pub data_of : Response → Option Json
data_of response = elim response.body [ json fields ↦ some (object fields) | text t ↦ none ]

-- an exception in the branch of the success is caught
unfoldable pub or_unexpected : Option Shown → Shown
or_unexpected none = unexpected_error
or_unexpected (some shown) = shown

unfoldable pub raised_shown : Raised → Shown
raised_shown not_caught = unexpected_error
raised_shown e = connection_error e

module _ {S : Type 0} (str_json : Json → String) (config : RetryConfig)
    (send : String → Request → S → Outcome × S) where
  unfoldable pub shown_reply : (Json → Option Shown) → Reply → Shown
  shown_reply success (raised e) = raised_shown e
  shown_reply success (returned response) =
      if response.status_code == 200
      then or_unexpected (data_of response >>= success)
      else error (format_error str_json response)

  unfoldable pub authorized :
      Option String → Request → (Json → Option Shown) → Client S → Shown × Client S
  authorized none request success c = (not_logged_in, c)
  authorized (some header) request success c =
      let t = request_with_retry config (send header request) c.state in
      (shown_reply success t.result, record c { state = t.state })

  unfoldable pub command : Request → (Json → Option Shown) → Client S → Shown × Client S
  command request success c = authorized (get_auth_header c.api_key) request success c

unfoldable pub read_listed : Json → Option Listed
read_listed v = do
  name ← get_str "name" v
  file_id ← get_str "file_id" v
  size ← get_nat "size" v
  tags ← get_strs "tags" v
  created_at ← get_str "created_at" v
  some
      (record { name = name; file_id = file_id; size = size; tags = tags; created_at = created_at })

unfoldable pub listing : List String → List Listed → Shown
listing tags [] = no_files_found tags
listing tags (f ∷ files) = found_files (f ∷ files)

unfoldable pub show_files : List String → Json → Option Shown
show_files tags reply = do files ← get_messages read_listed "files" reply; some (listing tags files)

unfoldable pub show_deleted : Json → Option Shown
show_deleted reply = do
  deleted_count ← get_nat "deleted_count" reply
  file_ids ← get_strs "file_ids" reply
  some (if deleted_count == 0 then no_files_deleted else deleted_files deleted_count file_ids)

unfoldable pub show_added : List String → Json → Option Shown
show_added new_tags reply = do
  updated_count ← get_nat "updated_count" reply
  file_ids ← get_strs "file_ids" reply
  some (if updated_count == 0 then no_files_updated else added_tags new_tags updated_count file_ids)

unfoldable pub read_skipped : Json → Option Skipped
read_skipped v = do
  name ← get_str "name" v
  file_id ← get_str "file_id" v
  current_tags ← get_strs "current_tags" v
  some (record { name = name; file_id = file_id; current_tags = current_tags })

unfoldable pub removal_shown : List String → ℕ → List String → List Skipped → Shown
removal_shown tags_to_remove zero file_ids [] = no_files_updated
removal_shown tags_to_remove updated_count file_ids skipped_files =
    removed_tags tags_to_remove updated_count file_ids skipped_files

-- `data.get('skipped_files', [])`, which the controller always sends
unfoldable pub show_removed : List String → Json → Option Shown
show_removed tags_to_remove reply = do
  updated_count ← get_nat "updated_count" reply
  file_ids ← get_strs "file_ids" reply
  skipped_files ← get_messages read_skipped "skipped_files" reply
  some (removal_shown tags_to_remove updated_count file_ids skipped_files)

module _ {S : Type 0} (str_json : Json → String) (config : RetryConfig)
    (send : String → Request → S → Outcome × S) where
  -- with no tags the parameter is the empty text
  unfoldable pub list_files : List String → Client S → Shown × Client S
  list_files tags c = command str_json config send (get_files (join_tags tags)) (show_files tags) c

  unfoldable pub delete_files : List String → Client S → Shown × Client S
  delete_files tags c =
      command str_json config send (delete_files_request (join_tags tags)) show_deleted c

  unfoldable pub add_tags : List String → List String → Client S → Shown × Client S
  add_tags query_tags new_tags c =
      command str_json config send (post_tags query_tags new_tags) (show_added new_tags) c

  unfoldable pub delete_tags : List String → List String → Client S → Shown × Client S
  delete_tags query_tags tags_to_remove c =
      command str_json config send (delete_tags_request query_tags tags_to_remove)
        (show_removed tags_to_remove) c
