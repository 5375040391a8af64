-- ===== src/Seed/Examples.antt =====
-- The seed of an empty database, and a second run, which writes nothing.
use saas_backend_fastapi.Prelude.{◌≡◌, refl, []}
use saas_backend_fastapi.Prelude.Rows.{length, any, insert}
use saas_backend_fastapi.Errors.{err, integrity_error}
use saas_backend_fastapi.Text.{decimal}
use saas_backend_fastapi.Platform.{Platform}
use saas_backend_fastapi.World.{Database, World, insert_row, get_db}
use saas_backend_fastapi.Models.{user_clash, membership_clash, organization_clash}
use saas_backend_fastapi.Security.{hash_password}
use saas_backend_fastapi.Repositories.Users
use saas_backend_fastapi.Repositories.Organizations
use saas_backend_fastapi.Repositories.Memberships
use saas_backend_fastapi.Seed.{run}
use saas_backend_fastapi.Samples.{platform, at_time}

abbrev numbered : Platform
numbered = record platform { ulid = decimal }

abbrev blank : Database
blank = record {
  users = [];
  organizations = [];
  memberships = [];
  invitations = [];
  subscriptions = [];
  notifications = [];
  audit_logs = [];
}

abbrev seeded : World
seeded = (run numbered (at_time 0 blank)).1

rows_seeded : (length seeded.db.users ≡ 2) × (length seeded.db.memberships ≡ 2)
unfolding run get_db hash_password Users.create Organizations.create Memberships.create Users.exists
    Organizations.exists insert_row insert any user_clash organization_clash membership_clash
    decimal
rows_seeded = (refl, refl)

again : (run numbered seeded).0 ≡ err integrity_error
unfolding run get_db hash_password Users.create Organizations.create Memberships.create Users.exists
    Organizations.exists insert_row insert any user_clash organization_clash membership_clash
    decimal
again = refl
