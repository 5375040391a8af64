-- ===== src/Accounts/Unique.antt =====
-- The UNIQUE constraints of `users` under every request on accounts.
use saas_backend_fastapi.Prelude.{
  ap, String, ◌==◌, Bool, true, false, List, if◌then◌else◌, ◌≡◌, refl, arith, eq_iff,
}
use saas_backend_fastapi.Prelude.Rows.{insert, any, update_where, one_updated, one_inserted}
use saas_backend_fastapi.Errors.{ok, err, integrity_error}
use saas_backend_fastapi.Models.{User, user_clash}
use saas_backend_fastapi.Platform.{Platform}
use saas_backend_fastapi.World.{Database, World, store, insert_row}
use saas_backend_fastapi.World.Keeps.{Keeps}
use saas_backend_fastapi.Repositories.Users
use saas_backend_fastapi.Auth.Reset.{UsersAreUnique}
use saas_backend_fastapi.Accounts.{Request, handle_all}
use saas_backend_fastapi.Accounts.Keeps.{IsOfUsers}
use saas_backend_fastapi.Accounts.Requests.{handle_all_keeps}

same_users : (db db' : Database) → db'.users ≡ db.users → UsersAreUnique db → UsersAreUnique db'
same_users db db' e unique = record {
  ids = λ i. rw e (unique.ids i);
  emails = λ s. rw e (unique.emails s);
}

id_clashes :
    (new old : User) (i : String)
    → (new.id == i) ≡ true
    → (old.id == i) ≡ true
    → user_clash new old ≡ true
unfolding user_clash
id_clashes new old i h k = ground (arith, eq_iff new.id i, eq_iff old.id i, eq_iff old.id new.id)

email_clashes :
    (new old : User) (s : String)
    → (new.email == s) ≡ true
    → (old.email == s) ≡ true
    → user_clash new old ≡ true
unfolding user_clash
email_clashes new old s h k =
    ground (arith, eq_iff new.email s, eq_iff old.email s, eq_iff old.email new.email)

inserted_unique :
    (db db' : Database) (u : User)
    → any (user_clash u) db.users ≡ false
    → db'.users ≡ insert u db.users
    → UsersAreUnique db
    → UsersAreUnique db'
inserted_unique db db' u fresh e unique = record {
  ids = λ i. rw e (
      one_inserted (λ x. x.id == i) db.users (user_clash u) u (λ h x k. id_clashes u x i h k) fresh
        (unique.ids i));
  emails = λ s. rw e (
      one_inserted (λ x. x.email == s) db.users (user_clash u) u (λ h x k. email_clashes u x s h k)
        fresh (unique.emails s));
}

saved_unique :
    (db db' : Database) (id : String) (f : User → User)
    → ((x : User) → ((f x).id ≡ x.id) × ((f x).email ≡ x.email))
    → db'.users ≡ update_where (Users.by_id id) f db.users
    → UsersAreUnique db
    → UsersAreUnique db'
saved_unique db db' id f same e unique = record {
  ids = λ i. rw e (
      one_updated (λ x. x.id == i) db.users (Users.by_id id) f (λ x. ap (λ t. t == i) (same x).0)
        (unique.ids i));
  emails = λ s. rw e (
      one_updated (λ x. x.email == s) db.users (Users.by_id id) f (λ x. ap (λ t. t == s) (same x).1)
        (unique.emails s));
}

stored_unique :
    (u : User) (w : World) (clash : Bool)
    → any (user_clash u) w.db.users ≡ clash
    → UsersAreUnique w.db
    → UsersAreUnique
        (store
          (if clash then err integrity_error else ok (insert u w.db.users))
          (λ rows db. record db { users = rows })
          w).1.db
stored_unique u w true e unique = unique
stored_unique u w false fresh unique = inserted_unique w.db _ u fresh refl unique

create_unique : (u : User) → Keeps UsersAreUnique (Users.create u)
unfolding Users.create insert_row
create_unique u = record { at = λ w h. stored_unique u w (any (user_clash u) w.db.users) refl h }

save_unique :
    (id : String) (f : User → User)
    → ((x : User) → ((f x).id ≡ x.id) × ((f x).email ≡ x.email))
    → Keeps UsersAreUnique (Users.save id f)
unfolding Users.save
save_unique id f same = record { at = λ w h. saved_unique w.db _ id f same refl h }

pub UsersAreUnique-IsOfUsers : IsOfUsers UsersAreUnique
UsersAreUnique-IsOfUsers = record {
  created = λ u _. create_unique u;
  saved = save_unique;
  others = same_users;
}

-- Ids and addresses stay unique: whatever requests on accounts arrive, each in its session, whether
-- they succeed or raise, if no two users share an id or an address before, then none do after.
pub accounts_stay_unique :
    (p : Platform) (requests : List Request) (w : World)
    → UsersAreUnique w.db
    → UsersAreUnique (handle_all p requests w).db
accounts_stay_unique p = handle_all_keeps UsersAreUnique-IsOfUsers p
