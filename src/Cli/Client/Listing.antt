-- ===== src/Cli/Client/Listing.antt =====
-- What the command list prints, with the routes and the tables behind it.
use redcloud_files.Base.{
  ℕ, zero, suc, String, false, Option, some, List, [], ◌∷◌, map, ◌≡◌, refl, str_eq, All, ap, ◌∙◌,
  ◌&&◌, select,
}
use Prim.Native.String.append
use Prim.Native.String.{◌++◌}
use redcloud_files.Base.Dict
use redcloud_files.Protocol.Json.{
  Json, look_up, get, as_str, as_nat, as_strings, messages, read_messages, as_messages,
  get_messages, read_strings-strings,
}
use redcloud_files.Replication.Database.{Db, File}
use redcloud_files.AuthService.{validate_api_key}
use redcloud_files.Queries.{query_by_tags_and_owner}
use redcloud_files.Queries.AllTags.{IsTagSet, has_each, query_by_tags_and_owner-has_each}
use redcloud_files.TagService.{FileMetadata, query_by_tags, metadata_with_tags}
use redcloud_files.FileService.{World}
use redcloud_files.Http.{Response, user, get_current_user, known_user, begins_with, without_bearer}
use redcloud_files.Http.Files.{file_metadata_response, tag_response, list_files as list_route}
use redcloud_files.Http.Tags.{IsPlainTag, join_tags, parse_tags-join_tags}
use redcloud_files.Cli.Client.{
  Outcome, responds, returned, RetryConfig, request_with_retry, attempts_from, after_outcome, reply,
  is_retried, should_retry_for_consistency, format_error, error_text, known_message, or_default,
  shown,
}
use redcloud_files.Cli.Client.Commands.{
  Request, get_files, Listed, Shown, error, listing, read_listed, show_files, shown_reply,
  authorized, command, get_auth_header, list_files, or_unexpected, data_of,
}
use redcloud_files.Cli.Client.Routes.{Surroundings, with_user, route, serve, answered}

abbrev pub listed : FileMetadata → Listed
listed f = record {
  name = f.name;
  file_id = f.file_id;
  size = f.size;
  tags = f.tags;
  created_at = f.created_at;
}

abbrev printed_files : List String → List File → Db → Shown
printed_files tags files db = listing tags (map listed (map (metadata_with_tags db.tags) files))

-- what the answers of the query print
abbrev printed : List String → String → Db → Shown
printed [] user_id db = error "Invalid tag query. Tags must be alphanumeric."
printed (tag ∷ tags) user_id db =
    printed_files (tag ∷ tags) (query_by_tags_and_owner (tag ∷ tags) user_id db) db

-- what the command ought to print for a user: the rows of files that are the user's and have each of
-- the tags, in the order of the table
abbrev pub expected : List String → String → Db → Shown
expected [] user_id db = error "Invalid tag query. Tags must be alphanumeric."
expected (tag ∷ tags) user_id db =
    printed_files (tag ∷ tags)
      (select (λ f. str_eq f.owner_id user_id && has_each (tag ∷ tags) db.tags f) db.files) db

printed-expected :
    (tags : List String) (user_id : String) (db : Db)
    → IsTagSet tags
    → printed tags user_id db ≡ expected tags user_id db
printed-expected [] user_id db distinct = refl
printed-expected (tag ∷ tags) user_id db distinct =
    ap (λ files. printed_files (tag ∷ tags) files db)
      (query_by_tags_and_owner-has_each tag tags user_id db distinct)

answered_from :
    {S : Type 0} (request : S → Outcome × S) (backoff total attempt left : ℕ) (s : S) (r : Response)
    (next : S)
    → request s ≡ (responds r, next)
    → is_retried (responds r) ≡ false
    → (attempts_from is_retried backoff total request attempt left s).result ≡ returned r
unfolding attempts_from after_outcome reply
answered_from request backoff total attempt zero s r next h final = rw h refl
answered_from request backoff total attempt (suc left) s r next h final = rw (h, final) refl

read_messages-map :
    {A B : Type 0} (to_json : A → Json) (from_json : Json → Option B) (g : A → B)
    → ((m : A) → from_json (to_json m) ≡ some (g m))
    → (ms : List A) → read_messages from_json (messages to_json ms) ≡ some (map g ms)
unfolding read_messages messages
read_messages-map to_json from_json g back [] = refl
read_messages-map to_json from_json g back (m ∷ ms) =
    rw (back m, read_messages-map to_json from_json g back ms) refl

read_listed-listed : (f : FileMetadata) → read_listed (file_metadata_response f) ≡ some (listed f)
unfolding read_listed file_metadata_response get look_up as_str as_nat as_strings
read_listed-listed f = rw (read_strings-strings f.tags) refl

abbrev spelled : String → String
spelled key = String.◌∷◌ "B" (
    String.◌∷◌ "e"
      (String.◌∷◌ "a" (String.◌∷◌ "r" (String.◌∷◌ "e" (String.◌∷◌ "r" (String.◌∷◌ " " key))))))

header_spelled : (key : String) → "Bearer " ++ key ≡ spelled key
header_spelled key =
    rw
      (
        append.cons "B" "earer " key,
        append.cons "e" "arer " key,
        append.cons "a" "rer " key,
        append.cons "r" "er " key,
        append.cons "e" "r " key,
        append.cons "r" " " key,
        append.cons " " "" key,
        append.nil key,
      )
      refl

-- The controller takes the key out of the client's header.
key_in_header :
    (key : String) (db : Db) {user_id : String}
    → without_bearer 0 key ≡ key
    → validate_api_key key db ≡ some user_id
    → get_current_user ("Bearer " ++ key) db ≡ user user_id
unfolding get_current_user known_user begins_with without_bearer
key_in_header key db plain valid = rw (header_spelled key, plain, valid) refl

module _ (str_json : Json → String) (detail : String) where
  -- the answer is final, and is shown as expected
  shown_list :
      (tags : List String) (user_id : String) (db : Db)
      → All IsPlainTag tags
      → (is_retried (responds (list_route detail (join_tags tags) user_id db)) ≡ false)
        × ((config : RetryConfig) (send : String → Request → World → Outcome × World)
            → shown_reply str_json config send
                (show_files tags)
                (returned (list_route detail (join_tags tags) user_id db))
              ≡ printed tags user_id db)
  unfolding list_route tag_response query_by_tags shown_reply or_unexpected data_of show_files
      get_messages as_messages look_up get is_retried should_retry_for_consistency format_error
      error_text known_message or_default shown Dict.lookup
  shown_list [] user_id db plain = rw (parse_tags-join_tags [] tt) (refl, λ config send. refl)
  shown_list (tag ∷ tags) user_id db plain =
      rw
        (
          parse_tags-join_tags (tag ∷ tags) plain,
          read_messages-map file_metadata_response read_listed listed read_listed-listed
              (map (metadata_with_tags db.tags) (query_by_tags_and_owner (tag ∷ tags) user_id db)),
        )
        (refl, λ config send. refl)

served_list :
    (s : Surroundings) (tags : List String) (key user_id : String) (w : World)
    → get_current_user ("Bearer " ++ key) w.db ≡ user user_id
    → answered s ("Bearer " ++ key) (get_files (join_tags tags)) w
      ≡ (responds (list_route s.invalid_tag_query (join_tags tags) user_id w.db), w)
unfolding answered serve with_user route
served_list s tags key user_id w known = rw known refl

-- Where the client has the key of a user, which is not empty and has no "Bearer " in it, and the
-- controller answers, list with plain tags of which none is named twice prints the files that the
-- user owns and that have a row of tags for each of them, with all their tags; with no tags it
-- prints that the query is invalid.
pub list_files-query :
    (str_json : Json → String) (s : Surroundings) (config : RetryConfig) (tags : List String)
    (key user_id : String) (w : World)
    → str_eq key "" ≡ false
    → without_bearer 0 key ≡ key
    → validate_api_key key w.db ≡ some user_id
    → All IsPlainTag tags
    → IsTagSet tags
    → (list_files str_json config (answered s) tags (record { api_key = some key; state = w })).0
      ≡ expected tags user_id w.db
unfolding list_files command authorized get_auth_header request_with_retry
list_files-query str_json s config tags key user_id w some_key plain_key valid plain distinct =
    let (final, as_printed) = shown_list str_json s.invalid_tag_query tags user_id w.db plain in
    let reply =
      answered_from (answered s ("Bearer " ++ key) (get_files (join_tags tags)))
        config.retry_backoff_multiplier (suc config.max_retries) 0 config.max_retries w _ w
        (served_list s tags key user_id w (key_in_header key w.db plain_key valid)) final in
    rw (some_key, reply)
      (as_printed config (answered s) ∙ printed-expected tags user_id w.db distinct)
