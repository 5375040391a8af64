-- ===== src/Accounts/Addresses.antt =====
-- Every account stands under an address in its normal form (`email.lower().strip()`), so a lookup by
-- the address that is stored finds the account: `get_by_email` of app/repositories/user_repo.py.
use saas_backend_fastapi.Prelude.{
  String, Bool, true, false, some, List, [], ◌∷◌, ◌≡◌, refl, sym, eq_iff, if◌then◌else◌,
}
use mathlib.Core.Path.{subst}
use saas_backend_fastapi.Prelude.Rows.{
  select, any, insert, All, All-insert, All-update_where, All-select, select_unique,
}
use saas_backend_fastapi.Errors.{ok, err, integrity_error}
use saas_backend_fastapi.Models.{User, user_clash}
use saas_backend_fastapi.Text.{normalize_email}
use saas_backend_fastapi.Platform.{Platform}
use saas_backend_fastapi.World.{Database, World, store, insert_row, scalar_one_or_none}
use saas_backend_fastapi.World.Laws.{scalar_some}
use saas_backend_fastapi.World.Keeps.{Keeps}
use saas_backend_fastapi.Repositories.Users
use saas_backend_fastapi.Auth.Reset.{UsersAreUnique}
use saas_backend_fastapi.Accounts.{Request, handle_all}
use saas_backend_fastapi.Accounts.Keeps.{IsOfUsers}
use saas_backend_fastapi.Accounts.Requests.{handle_all_keeps}
use saas_backend_fastapi.Accounts.Unique.{UsersAreUnique-IsOfUsers}

abbrev IsNormal : User → Type 0
IsNormal u = u.email ≡ normalize_email u.email

pub record AddressesAreNormal (db : Database) : Type 0 where
  pub all : All IsNormal db.users

stored_normal :
    (u : User) (w : World) (clash : Bool)
    → IsNormal u
    → AddressesAreNormal w.db
    → AddressesAreNormal
        (store
          (if clash then err integrity_error else ok (insert u w.db.users))
          (λ rows db. record db { users = rows })
          w).1.db
stored_normal u w true normal h = h
stored_normal u w false normal h = record { all = All-insert IsNormal u w.db.users normal h.all }

create_normal : (u : User) → IsNormal u → Keeps AddressesAreNormal (Users.create u)
unfolding Users.create insert_row
create_normal u normal = record {
  at = λ w h. stored_normal u w (any (user_clash u) w.db.users) normal h;
}

save_normal :
    (id : String) (f : User → User)
    → ((x : User) → ((f x).id ≡ x.id) × ((f x).email ≡ x.email))
    → Keeps AddressesAreNormal (Users.save id f)
unfolding Users.save
save_normal id f same = record {
  at = λ w h. record {
    all =
        All-update_where IsNormal (Users.by_id id) f w.db.users
          (λ x normal. subst (λ s. s ≡ normalize_email s) (sym (same x).1) normal) h.all;
  };
}

AddressesAreNormal-IsOfUsers : IsOfUsers AddressesAreNormal
AddressesAreNormal-IsOfUsers = record {
  created = create_normal;
  saved = save_normal;
  others = λ db db' e h. record { all = subst (All IsNormal) (sym e) h.all };
}

-- An account that is found is found by its own address: whatever requests on accounts come after a
-- state in which ids and addresses are unique and addresses are in their normal form, an account
-- that `get_by_id` finds is the one that `get_by_email` finds under the address it has.
pub account_has_its_address :
    (p : Platform) (requests : List Request) (w : World) (id : String) (u : User)
    → UsersAreUnique w.db
    → AddressesAreNormal w.db
    → Users.get_by_id id (handle_all p requests w).db ≡ ok (some u)
    → Users.get_by_email u.email (handle_all p requests w).db ≡ ok (some u)
unfolding Users.get_by_id Users.get_by_email scalar_one_or_none
account_has_its_address p requests w id u unique normal found =
    let after = handle_all_keeps AddressesAreNormal-IsOfUsers p requests w normal in
    let one = handle_all_keeps UsersAreUnique-IsOfUsers p requests w unique in
    let users : List User = (handle_all p requests w).db.users in
    let alone : select (Users.by_id id) users ≡ u ∷ [] =
      scalar_some (select (Users.by_id id) users) found in
    let mine : IsNormal u =
      (subst (All IsNormal) alone (All-select IsNormal (Users.by_id id) users after.all)).0 in
    rw
      (select_unique (Users.by_id id) (Users.by_email u.email) users
        (one.emails (normalize_email u.email)) alone
        ((eq_iff u.email (normalize_email u.email)).1 mine))
      refl
