-- ===== src/Cli/Client/Server.antt =====
-- The requests of the client reach the routes of one controller, unless the network fails them.
use redcloud_files.Base.{ℕ, suc, List, [], ◌∷◌}
use redcloud_files.Replication.Database.{Db}
use redcloud_files.Http.{Response}
use redcloud_files.Cli.Client.{Outcome, responds, connect_error, timeout_exception, other_exception}

-- how httpx reports a failure of the network
pub data Failure : Type 0 where
  no_connection timed_out broken_off : Failure

-- A request is answered; it does not reach the controller; or it does and the answer is lost.
pub data Fate : Type 0 where
  answered : Fate
  lost unanswered : Failure → Fate

-- the controller's tables, what becomes of the requests to come (those after the last are
-- answered), and the number of requests sent
pub record Server : Type 0 where
  pub db : Db
  pub fates : List Fate
  pub sent : ℕ

unfoldable pub reported : Failure → Outcome
reported no_connection = connect_error
reported timed_out = timeout_exception
reported broken_off = other_exception

unfoldable pub next_fate : List Fate → Fate × List Fate
next_fate [] = (answered, [])
next_fate (fate ∷ fates) = (fate, fates)

unfoldable pub delivered : Fate → Db → Response × Db → Outcome × Db
delivered answered db (response, next) = (responds response, next)
delivered (lost failure) db (response, next) = (reported failure, db)
delivered (unanswered failure) db (response, next) = (reported failure, next)

-- `route` is what the controller does for the request, given the number of the request.
unfoldable pub send : (ℕ → Db → Response × Db) → Server → Outcome × Server
send route server =
    let (fate, fates) = next_fate server.fates in
    let (outcome, next) = delivered fate server.db (route server.sent server.db) in
    (outcome, record { db = next; fates = fates; sent = suc server.sent })
