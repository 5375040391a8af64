-- ===== src/Notifications/Reading.antt =====
-- The marks of app/api/v1/endpoints/notifications.py: reading notifications, and whom it concerns.
use saas_backend_fastapi.Prelude.{
  ℕ, String, ◌==◌, ◌≡◌, ◌≢◌, refl, ap, Bool, true, ◌&&◌, List, [], ◌∷◌, arith, eq_iff,
}
use saas_backend_fastapi.Prelude.Rows.{select, update_where, length}
use saas_backend_fastapi.Errors.{ok}
use saas_backend_fastapi.Models.{User, Notification}
use saas_backend_fastapi.World.{World}
use saas_backend_fastapi.Notifications.{
  mark_all_read, mark_as_read, list_notifications, of_user, unread_of, read_now,
}

-- the unread ones of another user
others_unread :
    (mine other : String) (now : ℕ) (q : Notification → Bool) (xs : List Notification)
    → mine ≢ other
    → ((n : Notification) → q n ≡ true → n.user_id ≡ mine)
    → select (of_user other) (update_where q (read_now now) xs) ≡ select (of_user other) xs
unfolding select update_where
others_unread mine other now q [] apart own = refl
others_unread mine other now q (n ∷ xs) apart own =
    let rest = others_unread mine other now q xs apart own in
    ground (arith, own n, eq_iff n.user_id other)

none_unread :
    (mine : String) (now : ℕ) (xs : List Notification)
    → select (unread_of mine) (update_where (unread_of mine) (read_now now) xs) ≡ []
unfolding select update_where
none_unread mine now [] = refl
none_unread mine now (n ∷ xs) = ground (arith, none_unread mine now xs)

-- After `mark_all_read` the user has no unread notification, and the notifications of every other
-- user are as they were.
pub mark_all_read_lem :
    (user : User) (other : String) (limit offset : ℕ) (w : World)
    → user.id ≢ other
    → let (r, w') = mark_all_read user w in
      (r ≡ ok tt)
      × ((list_notifications user limit offset w'.db).1 ≡ 0)
      × (select (of_user other) w'.db.notifications ≡ select (of_user other) w.db.notifications)
unfolding mark_all_read list_notifications
mark_all_read_lem user other limit offset w apart = (
  refl,
  ap length (none_unread user.id w.now w.db.notifications),
  others_unread user.id other w.now (unread_of user.id) w.db.notifications apart
      (λ n h. ground (arith, eq_iff n.user_id user.id)),
)

-- `mark_as_read` touches no notification of another user, whatever identifier it is given.
pub mark_as_read_own :
    (id : String) (user : User) (other : String) (w : World)
    → user.id ≢ other
    → let (r, w') = mark_as_read id user w in
      (r ≡ ok tt)
      × (select (of_user other) w'.db.notifications ≡ select (of_user other) w.db.notifications)
unfolding mark_as_read
mark_as_read_own id user other w apart = (
  refl,
  others_unread user.id other w.now (λ n. n.id == id && n.user_id == user.id) w.db.notifications
      apart (λ n h. ground (arith, eq_iff n.user_id user.id)),
)
