-- ===== src/Notifications.antt =====
-- app/services/notification_service.py and app/api/v1/endpoints/notifications.py
mod Examples
pub mod Reading
use saas_backend_fastapi.Prelude.{
  ℕ, String, ◌++◌, ◌==◌, Bool, true, false, not, ◌&&◌, ◌||◌, Option, none, some, List, [], ◌∷◌,
  if◌then◌else◌,
}
use saas_backend_fastapi.Prelude.Rows.{
  length, select, update_where, any, insert, order_desc, take, drop,
}
use saas_backend_fastapi.Errors.{integrity_error}
use saas_backend_fastapi.Models.{User, Notification}
use saas_backend_fastapi.Text.{title}
use saas_backend_fastapi.Platform.{Platform}
use saas_backend_fastapi.World.{
  Database, Exec, pure, throw, insert_row, store, modify, draw, get_now, ◌>>=◌, ◌>>◌,
}
use saas_backend_fastapi.Repositories.Users

-- INSERT: the primary key is unique, and the user exists
unfoldable pub insert_notification : Notification → Exec (Unit {0})
insert_notification n w =
    if Users.exists n.user_id w.db
    then store (insert_row (λ new old. old.id == new.id) n w.db.notifications)
        (λ rows db. record db { notifications = rows }) w
    else throw integrity_error w

module _ (p : Platform) where
  unfoldable pub create :
      String → String → String → Option String → Option (List (String × String)) → Exec Notification
  create user_id title body link meta = do
    id ← draw p.ulid
    now ← get_now
    let notification : Notification = record {
      id = id;
      user_id = user_id;
      title = title;
      body = body;
      link = link;
      is_read = false;
      read_at = none;
      meta = meta;
      created_at = now;
    }
    insert_notification notification
    pure notification

  unfoldable pub notify_invitation_accepted : String → String → String → String → Exec Notification
  notify_invitation_accepted inviter_user_id joiner_name org_name org_id =
      create inviter_user_id (joiner_name ++ (" joined " ++ org_name))
        (joiner_name ++ (" accepted your invitation to join " ++ (org_name ++ ".")))
        (some ("/organizations/" ++ (org_id ++ "/members")))
        (some (("event", "invitation_accepted") ∷ ("org_id", org_id) ∷ []))

  unfoldable pub notify_role_changed : String → String → String → String → Exec Notification
  notify_role_changed user_id new_role org_name org_id =
      create user_id ("Your role in " ++ (org_name ++ " was updated"))
        ("You are now a " ++ (new_role ++ (" in " ++ (org_name ++ "."))))
        (some ("/organizations/" ++ org_id))
        (some (("event", "role_changed") ∷ ("org_id", org_id) ∷ ("new_role", new_role) ∷ []))

  unfoldable pub notify_plan_upgraded : String → String → String → String → Exec Notification
  notify_plan_upgraded user_id plan org_name org_id =
      create user_id (org_name ++ (" upgraded to " ++ title plan))
        ("Your organization is now on the " ++ (title plan ++ " plan. Enjoy the new features!"))
        (some ("/organizations/" ++ (org_id ++ "/billing")))
        (some (("event", "plan_upgraded") ∷ ("org_id", org_id) ∷ ("plan", plan) ∷ []))

abbrev pub of_user : String → Notification → Bool
of_user user_id n = n.user_id == user_id

abbrev pub unread_of : String → Notification → Bool
unread_of user_id n = n.user_id == user_id && not n.is_read

abbrev pub read_now : ℕ → Notification → Notification
read_now now n = record n { is_read = true; read_at = some now }

-- the page of notifications, the newest first, and the number of unread ones
unfoldable pub list_notifications : User → ℕ → ℕ → Database → List Notification × ℕ
list_notifications current_user limit offset db = (
  take limit (
      drop offset
        (order_desc (λ n. n.created_at) (select (of_user current_user.id) db.notifications))),
  length (select (unread_of current_user.id) db.notifications),
)

unfoldable pub mark_as_read : String → User → Exec (Unit {0})
mark_as_read notification_id current_user = do
  now ← get_now
  modify (λ db. record db {
    notifications =
        update_where (λ n. n.id == notification_id && n.user_id == current_user.id) (read_now now)
          db.notifications;
  })

unfoldable pub mark_all_read : User → Exec (Unit {0})
mark_all_read current_user = do
  now ← get_now
  modify (λ db. record db {
    notifications = update_where (unread_of current_user.id) (read_now now) db.notifications;
  })
