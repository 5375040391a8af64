-- ===== src/Repositories/Invitations.antt =====
-- app/repositories/invitation_repo.py
use saas_backend_fastapi.Prelude.{String, Bool, ◌&&◌, Option, List, ◌==◌, if◌then◌else◌}
use saas_backend_fastapi.Prelude.Rows.{select, update_where, order_desc}
use saas_backend_fastapi.Errors.{Result, integrity_error}
use saas_backend_fastapi.Models.{Invitation, InvitationStatus, is_pending, invitation_clash}
use saas_backend_fastapi.Text.{lower}
use saas_backend_fastapi.World.{
  Database, Exec, scalar_one_or_none, insert_row, store, modify, throw,
}
use saas_backend_fastapi.Repositories.Users
use saas_backend_fastapi.Repositories.Organizations

abbrev pub by_token : String → Invitation → Bool
by_token token i = i.token == token

abbrev pub by_id : String → Invitation → Bool
by_id invitation_id i = i.id == invitation_id

abbrev pub pending_for : String → String → Invitation → Bool
pending_for email org_id i =
    i.email == lower email && i.organization_id == org_id && is_pending i.status

unfoldable pub get_by_token : String → Database → Result (Option Invitation)
get_by_token token db = scalar_one_or_none (select (by_token token) db.invitations)

unfoldable pub get_by_id : String → Database → Result (Option Invitation)
get_by_id invitation_id db = scalar_one_or_none (select (by_id invitation_id) db.invitations)

unfoldable pub get_pending_by_email_and_org :
    String → String → Database → Result (Option Invitation)
get_pending_by_email_and_org email org_id db =
    scalar_one_or_none (select (pending_for email org_id) db.invitations)

unfoldable pub list_by_org : String → Database → List Invitation
list_by_org org_id db =
    order_desc (λ i. i.created_at) (select (λ i. i.organization_id == org_id) db.invitations)

-- `db.add(invitation)`, `db.flush()`: the foreign keys, then UNIQUE
unfoldable pub create : Invitation → Exec (Unit {0})
create i w =
    if Organizations.exists i.organization_id w.db && Users.refers i.invited_by_id w.db
    then store (insert_row invitation_clash i w.db.invitations)
        (λ rows db. record db { invitations = rows }) w
    else throw integrity_error w

-- `invitation.status = status`, `db.flush()`
unfoldable pub save_status : String → InvitationStatus → Exec (Unit {0})
save_status invitation_id status = modify (λ db. record db {
  invitations =
      update_where (by_id invitation_id) (λ i. record i { status = status }) db.invitations;
})
