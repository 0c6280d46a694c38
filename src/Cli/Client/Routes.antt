-- ===== src/Cli/Client/Routes.antt =====
-- What the controller answers to the client's commands: controller/routes/file_routes.py behind
-- get_current_user of controller/auth.py.
use redcloud_files.Base.{String}
use redcloud_files.Replication.Emitter.{Emission}
use redcloud_files.ChunkClient.{Net, Exception}
use redcloud_files.FileService.{World}
use redcloud_files.Http.{Response, CurrentUser, user, refused, get_current_user}
use redcloud_files.Http.Files
use redcloud_files.Cli.Client.{Outcome, responds}
use redcloud_files.Cli.Client.Commands.{
  Request, get_files, delete_files_request, post_tags, delete_tags_request,
}

-- the texts of exceptions, and what the routes take from outside
pub record Surroundings : Type 0 where
  pub str_of : Exception → String
  pub invalid_tag_query : String
  pub net : Net
  pub emissions : String → Emission
  pub now : String

unfoldable pub with_user : CurrentUser → World → (String → Response × World) → Response × World
with_user (refused response) w route = (response, w)
with_user (user user_id) w route = route user_id

module _ (s : Surroundings) where
  unfoldable pub route : Request → World → String → Response × World
  route (get_files tags) w user_id = (Files.list_files s.invalid_tag_query tags user_id w.db, w)
  route (delete_files_request tags) w user_id =
      Files.delete_files s.str_of s.net s.emissions s.now tags user_id w
  route (post_tags query_tags new_tags) w user_id =
      let (response, db) =
        Files.add_tags s.invalid_tag_query s.emissions query_tags new_tags user_id w.db in
      (response, record w { db = db })
  route (delete_tags_request query_tags tags_to_remove) w user_id =
      let (response, db) =
        Files.delete_tags s.invalid_tag_query s.emissions query_tags tags_to_remove user_id w.db in
      (response, record w { db = db })

  unfoldable pub serve : String → Request → World → Response × World
  serve authorization request w =
      with_user (get_current_user authorization w.db) w (route request w)

  -- every request is answered
  unfoldable pub answered : String → Request → World → Outcome × World
  answered authorization request w =
      let (response, next) = serve authorization request w in (responds response, next)
