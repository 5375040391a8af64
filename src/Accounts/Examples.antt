-- ===== src/Accounts/Examples.antt =====
-- Dan registers twice, and changes his name, at the small office of the samples.
use saas_backend_fastapi.Prelude.{◌≡◌, refl, none, some, List, [], ◌∷◌, arith, eq_iff}
use saas_backend_fastapi.Prelude.Rows.{select, any, insert, update_where}
use saas_backend_fastapi.Errors.{ok}
use saas_backend_fastapi.Models.{User, user_clash}
use saas_backend_fastapi.Text.{normalize_email}
use saas_backend_fastapi.World.{World, insert_row, scalar_one_or_none, get_db}
use saas_backend_fastapi.Samples.{platform, ann, office, at_time}
use saas_backend_fastapi.Schemas.{RegisterRequest}
use saas_backend_fastapi.Security.{
  hash_password, generate_secure_token, create_access_token, create_refresh_token,
}
use saas_backend_fastapi.Repositories.Users
use saas_backend_fastapi.Auth
use saas_backend_fastapi.Auth.Registration.{new_user}
use saas_backend_fastapi.Auth.Reset.{UsersAreUnique}
use saas_backend_fastapi.Account
use saas_backend_fastapi.Accounts.{
  Request, register, update_profile, delete_account, handle, handle_all,
}
use saas_backend_fastapi.Accounts.Unique.{accounts_stay_unique}
use saas_backend_fastapi.Accounts.Addresses.{AddressesAreNormal, account_has_its_address}

abbrev start : World
start = at_time 0 office

abbrev dan : RegisterRequest
dan = record { email = "  Dan@X.io"; password = "Secret12"; full_name = none }

abbrev dan_user : User
dan_user = new_user platform dan start

abbrev requests : List Request
requests =
    register dan
    ∷ register dan
    ∷ update_profile (some "Dan") none dan_user
    ∷ delete_account ann
    ∷ []

abbrev named : User
named = record dan_user { full_name = some "Dan" }

unique : UsersAreUnique office
unfolding select
unique = record {
  ids = λ i. ground (
    arith,
    eq_iff "ann" i,
    eq_iff "bob" i,
    eq_iff "eve" i,
    eq_iff "ann" "bob",
    eq_iff "ann" "eve",
    eq_iff "bob" "eve",
  );
  emails = λ s. ground (
    arith,
    eq_iff "ann@x.io" s,
    eq_iff "bob@x.io" s,
    eq_iff "eve@x.io" s,
    eq_iff "ann@x.io" "bob@x.io",
    eq_iff "ann@x.io" "eve@x.io",
    eq_iff "bob@x.io" "eve@x.io",
  );
}

normal : AddressesAreNormal office
unfolding normalize_email
normal = record { all = (refl, (refl, (refl, tt))) }

found : Users.get_by_id "new" (handle_all platform requests start).db ≡ ok (some named)
unfolding handle_all handle get_db Auth.register Users.get_by_email Users.get_by_id Users.create
    Users.save insert_row insert any user_clash select update_where scalar_one_or_none
    normalize_email hash_password generate_secure_token Auth.issue_tokens Account.update_profile
    Account.delete_account create_access_token create_refresh_token
found = refl

accounts_stay_unique_example : UsersAreUnique (handle_all platform requests start).db
accounts_stay_unique_example = accounts_stay_unique platform requests start unique

account_has_its_address_example :
    Users.get_by_email "dan@x.io" (handle_all platform requests start).db ≡ ok (some named)
unfolding normalize_email
account_has_its_address_example =
    account_has_its_address platform requests start "new" named unique normal found
