-- ===== src/Org/Spec.antt =====
-- What the members of app/services/org_service.py amount to: the role of each user in each
-- organization, and what each call may do to it, whatever the rows are.
use saas_backend_fastapi.Prelude.{
  ◌≤◌, String, Bool, true, false, not, ◌&&◌, ◌||◌, Option, none, some, List, [], ◌∷◌, ◌==◌, ◌≡◌,
  ◌⊎◌, leb, if◌then◌else◌,
}
use saas_backend_fastapi.Prelude.Rows.{select, length}
use saas_backend_fastapi.Models.{MemberRole, owner, admin, is_owner, Membership, Organization, User}
use saas_backend_fastapi.Policy.{rank}
use saas_backend_fastapi.World.{Database}
use saas_backend_fastapi.Repositories.Memberships
use saas_backend_fastapi.Org.Effects.{IdsAreUnique}

-- organization, user ↦ role
abbrev pub Roles : Type 0
Roles = String → String → Option MemberRole

abbrev pub role_in : List Membership → Option MemberRole
role_in [] = none
role_in (m ∷ ms) = some m.role

-- the abstract view of the table
abbrev pub roles_of : Database → Roles
roles_of db org_id user_id =
    role_in (select (Memberships.of_user_in_org user_id org_id) db.memberships)

abbrev pub assign : String → String → Option MemberRole → Roles → Roles
assign org_id user_id role r o u = if u == user_id && o == org_id then role else r o u

abbrev pub dissolve : String → Roles → Roles
dissolve org_id r o u = if o == org_id then none else r o u

unfoldable pub holds_at : MemberRole → Option MemberRole → Bool
holds_at minimum none = false
holds_at minimum (some role) = leb (rank minimum) (rank role)

-- Roles of the actor and of the target.
unfoldable pub may_change : Option MemberRole → Option MemberRole → Bool
unfolding holds_at
may_change actor none = false
may_change actor (some target) =
    holds_at admin actor && (not (is_owner target) || holds_at owner actor)

pub data Call : Type 0 where
  create : String → User → Call  -- name, creator
  update_member_role : Organization → String → MemberRole → User → Call
  remove_member : Organization → String → User → Call
  invite_member : Organization → String → MemberRole → User → Call
  accept_invitation : String → User → Call  -- token, user
  delete : Organization → User → Call

-- A change of role and a removal are decided by the roles alone. Whether the others go through
-- depends on tables that this view forgets.
abbrev pub Step : Call → Roles → Roles → Type 0
Step (create name creator) r r' =
    (r' ≡ r)
    ⊎ ((org_id : String) × (r org_id creator.id ≡ none)
        × (r' ≡ assign org_id creator.id (some owner) r))
Step (update_member_role org target new_role actor) r r' = r' ≡ (
    if may_change (r org.id actor.id) (r org.id target)
    then assign org.id target (some new_role) r
    else r)
Step (remove_member org target actor) r r' = r' ≡ (
    if actor.id == target || holds_at admin (r org.id actor.id)
    then assign org.id target none r
    else r)
Step (invite_member org email role actor) r r' = r' ≡ r
Step (accept_invitation token user) r r' =
    (r' ≡ r)
    ⊎ ((org_id : String) × (role : MemberRole) × (r org_id user.id ≡ none)
        × (r' ≡ assign org_id user.id (some role) r))
Step (delete org actor) r r' =
    (r' ≡ r) ⊎ ((holds_at owner (r org.id actor.id) ≡ true) × (r' ≡ dissolve org.id r))

-- the steps of a sequence of calls
pub data Run : List Call → Roles → Roles → Type 0 where
  done : {r : Roles} → Run [] r r
  step :
      {c : Call} {cs : List Call} {r r' r'' : Roles}
      → Step c r r'
      → Run cs r' r''
      → Run (c ∷ cs) r r''

-- the UNIQUE constraint on (user_id, organization_id)
abbrev pub PairsAreUnique : Database → Type 0
PairsAreUnique db =
    (u o : String) → length (select (Memberships.of_user_in_org u o) db.memberships) ≤ 1

pub record IsConsistent (db : Database) : Type 0 where
  pub ids : IdsAreUnique db
  pub pairs : PairsAreUnique db
