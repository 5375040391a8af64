-- ===== src/Notifications/Examples.antt =====
-- Ann and Bob have a notification each.
use saas_backend_fastapi.Prelude.{◌≡◌, ◌≢◌, false, none, [], ◌∷◌, String, arith, eq_iff}
use saas_backend_fastapi.Prelude.Rows.{select}
use saas_backend_fastapi.Errors.{ok}
use saas_backend_fastapi.Models.{Notification}
use saas_backend_fastapi.World.{World}
use saas_backend_fastapi.Notifications.{mark_all_read, list_notifications, of_user}
use saas_backend_fastapi.Notifications.Reading.{mark_all_read_lem}
use saas_backend_fastapi.Samples.{ann, office, at_time}

abbrev note : String → String → Notification
note id user_id = record {
  id = id;
  user_id = user_id;
  title = "Hello";
  body = "World";
  link = none;
  is_read = false;
  read_at = none;
  meta = none;
  created_at = 0;
}

abbrev inbox : World
inbox = at_time 5 (record office { notifications = note "n1" "ann" ∷ note "n2" "bob" ∷ [] })

apart : ann.id ≢ "bob"
apart = ground (arith, eq_iff "ann" "bob")

mark_all_read_lem_example :
    let (r, w') = mark_all_read ann inbox in
    (r ≡ ok tt)
    × ((list_notifications ann 20 0 w'.db).1 ≡ 0)
    × (select (of_user "bob") w'.db.notifications ≡ select (of_user "bob") inbox.db.notifications)
mark_all_read_lem_example = mark_all_read_lem ann "bob" 20 0 inbox apart
