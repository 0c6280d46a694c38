-- ===== src/Tests/Client.antt =====
-- Commands of a client: requests that fail, a login, a listing and a download.
use redcloud_files.Base.{
  false, mem, ◌≤◌, ℕ, zero, suc, ◌<◌, String, none, some, [], ◌∷◌, ◌≡◌, refl, exists, find, arith,
}
use redcloud_files.Base.Dict
use redcloud_files.VectorClock.{at}
use redcloud_files.Protocol.Json.{Json, look_up}
use redcloud_files.Replication.Database.{empty}
use redcloud_files.Replication.Log.{insert_operation, get_operation_by_id}
use redcloud_files.Replication.Service.{get_current_vector_clock, clock_of_rows}
use redcloud_files.Replication.Emitter.{
  emit, emit_api_key_updated, with_id, get_and_increment_vector_clock,
}
use redcloud_files.ChunkClient.{Exception}
use redcloud_files.FileService.{World}
use redcloud_files.AuthService.{
  FreshUser, get_by_username, get_by_api_key, update_api_key, set_api_key, logged_in, login_as,
  login_user, validate_api_key, id_of, registration,
}
use redcloud_files.AuthService.Rows.{row_of}
use redcloud_files.Http
use redcloud_files.Http.{Response, json, text, responded, without_bearer, begins_with}
use redcloud_files.Http.Tags.{IsPlainTag, strip, lstrip, rstrip, is_space}
use redcloud_files.Cli.Client.{
  RetryConfig, Client, request_with_retry, attempts_from, after_outcome, slept, is_retried, reply,
  power, should_retry_for_consistency,
}
use redcloud_files.Cli.Client.Accounts.{
  login, login_reply, save_login, login_successful, field_of, register, registration_failed,
}
use redcloud_files.Cli.Client.Server.{
  Server, lost, unanswered, timed_out, no_connection, send, next_fate, delivered, reported,
}
use redcloud_files.Cli.Client.Sessions.{login_route, register_route, Opened, login-Opened}
use redcloud_files.Cli.Client.Lost.{register_lost}
use redcloud_files.Cli.Client.Attempts.{
  Tries, sum, request_with_retry-Tries, request_with_retry_waits, AllRetried, after_requests,
}
use redcloud_files.Cli.Client.Commands.{list_files, get_auth_header}
use redcloud_files.Cli.Client.Routes.{Surroundings, answered}
use redcloud_files.Cli.Client.Listing.{expected, list_files-query}
use redcloud_files.Cli.Client.Transfers.{
  Stream, stream, Saving, save, write_stream, download, download_with, downloaded, downloaded_reply,
  is_download_retried,
}
use redcloud_files.Cli.Client.Whole.{IsWhole, saving_request, download-IsWhole}
use redcloud_files.Tests.Accounts.{bcrypt, fresh, registered_db, registered_lem, two_users}
use redcloud_files.Tests.Transfers.{net, emission}

abbrev config : RetryConfig
config = record { max_retries = 5; retry_backoff_multiplier = 2 }

abbrev str_json : Json → String
str_json v = "{}"

abbrev str_of : Exception → String
str_of e = "refused"

abbrev keys : ℕ → FreshUser
keys k = fresh "u1" "dfs_2" "o2"

-- the first two requests fail
abbrev failing : Server
failing = record { db = two_users; fates = lost no_connection ∷ lost timed_out ∷ []; sent = 0 }

request_with_retry-Tries_example :
    Tries is_retried
      (send (login_route str_of bcrypt "ann" "secret" keys))
      2
      6
      0
      5
      failing
      (request_with_retry config (send (login_route str_of bcrypt "ann" "secret" keys)) failing)
request_with_retry-Tries_example =
    request_with_retry-Tries (send (login_route str_of bcrypt "ann" "secret" keys)) config failing

request_with_retry_waits_example :
    sum
      (request_with_retry config
        (send (login_route str_of bcrypt "ann" "secret" keys))
        failing).delays
    < 32
unfolding power
request_with_retry_waits_example =
    request_with_retry_waits (send (login_route str_of bcrypt "ann" "secret" keys)) config failing
      (omega arith)

abbrev client : Client Server
client = record { api_key = none; state = failing }

logged_in_lem :
    (login str_json config (send (login_route str_of bcrypt "ann" "secret" keys)) client).0
    ≡ login_successful
unfolding login login_reply save_login request_with_retry attempts_from after_outcome slept
    is_retried reply power send next_fate delivered reported Http.login responded field_of look_up
    should_retry_for_consistency login_user login_as logged_in update_api_key set_api_key
    emit_api_key_updated emit with_id insert_operation get_operation_by_id
    get_and_increment_vector_clock get_current_vector_clock clock_of_rows at Dict.insert Dict.lookup
    find exists get_by_username
logged_in_lem = refl

login-Opened_example :
    Opened (login str_json config (send (login_route str_of bcrypt "ann" "secret" keys)) client).1
login-Opened_example =
    login-Opened str_json str_of bcrypt "ann" "secret" keys config client logged_in_lem

register_lost_example :
    (register str_json
        (record { max_retries = 5; retry_backoff_multiplier = 2 })
        (send (register_route str_of bcrypt "ann" "secret" (λ k. fresh "u1" "dfs_1" "o1")))
        (record {
          api_key = none;
          state = record { db = empty; fates = unanswered timed_out ∷ []; sent = 0 };
        })
      ≡ (
        registration_failed
            "Username already taken. Try logging in or choose a different username.",
        record { api_key = none; state = record { db = registered_db; fates = []; sent = 2 } },
      ))
    × (get_by_username "ann" registered_db
        ≡ some (row_of (registration bcrypt (fresh "u1" "dfs_1" "o1") "ann" "secret")))
unfolding is_retried reported
register_lost_example =
    register_lost str_json str_of bcrypt "ann" "secret" (λ k. fresh "u1" "dfs_1" "o1") 2 4 0
      timed_out empty none refl registered_lem

abbrev surroundings : Surroundings
surroundings = record {
  str_of = str_of;
  invalid_tag_query = "no tags";
  net = net;
  emissions = emission;
  now = "t";
}

abbrev shelf : World
shelf = record {
  db = record two_users {
    files =
        record { file_id = "f1"; name = "a.txt"; size = 3; owner_id = "u1"; created_at = "t" } ∷ [];
    tags = record { file_id = "f1"; tag = "work" } ∷ [];
  };
  liveness = [];
  marking_fails = false;
  link = record {
    server = record { disk = []; chunks = record { index = []; tombstones = [] } };
    fates = [];
  };
}

work-IsPlainTag : IsPlainTag "work"
unfolding strip lstrip rstrip is_space
work-IsPlainTag = record {
  no_comma = (refl, (refl, (refl, (refl, tt))));
  is_stripped = refl;
  is_not_empty = refl;
}

list_files-query_example :
    (list_files str_json config
      (answered surroundings)
      ("work" ∷ [])
      (record { api_key = some "dfs_1"; state = shelf })).0
    ≡ expected ("work" ∷ []) "u1" shelf.db
unfolding mem without_bearer begins_with validate_api_key get_by_api_key id_of find
list_files-query_example =
    list_files-query str_json surroundings config ("work" ∷ []) "dfs_1" "u1" shelf refl refl refl
      (work-IsPlainTag, tt) (refl, tt)

-- the first answer breaks off, the second is whole
abbrev get_twice : String → String → ℕ → Stream × ℕ
get_twice header filename zero =
    (stream (record { status_code = 200; body = text "" }) 3 ((1 ∷ []) ∷ []) (some timed_out), 1)
get_twice header filename (suc k) = (
  stream (record { status_code = 200; body = text "" }) 3 ((1 ∷ 2 ∷ []) ∷ (3 ∷ []) ∷ []) none,
  suc (suc k),
)

abbrev nothing_saved : Saving ℕ
nothing_saved = record { disk = []; server = 0; printed_size = 0 }

saved_lem :
    (download str_json config get_twice
      (some "dfs_1")
      "a.txt"
      (some "downloads/a.txt")
      ""
      nothing_saved).0
    ≡ downloaded "a.txt" 3 "downloads/a.txt"
unfolding download download_with downloaded_reply attempts_from after_outcome slept
    is_download_retried reply power save write_stream reported get_auth_header Dict.insert
saved_lem = refl

download-IsWhole_example :
    (retries : ℕ) × (retries ≤ 5)
    × AllRetried is_download_retried
        (saving_request "downloads/a.txt" get_twice "Bearer dfs_1" "a.txt")
        retries
        nothing_saved
    × (after_requests is_download_retried
          (saving_request "downloads/a.txt" get_twice "Bearer dfs_1" "a.txt")
          (suc retries)
          nothing_saved
        ≡ (download str_json config get_twice
            (some "dfs_1")
            "a.txt"
            (some "downloads/a.txt")
            ""
            nothing_saved).1)
    × IsWhole ℕ "downloads/a.txt"
        (get_twice "Bearer dfs_1" "a.txt"
          (after_requests is_download_retried
            (saving_request "downloads/a.txt" get_twice "Bearer dfs_1" "a.txt")
            retries
            nothing_saved).server)
        (download str_json config get_twice
          (some "dfs_1")
          "a.txt"
          (some "downloads/a.txt")
          ""
          nothing_saved).1
unfolding get_auth_header
download-IsWhole_example =
    download-IsWhole "downloads/a.txt" str_json config get_twice (some "dfs_1") "Bearer dfs_1"
      "a.txt" "" 3 nothing_saved refl saved_lem
