-- ===== src/Responses/Memberships.antt =====
-- The organizations that the response of a user shows are those that `list_for_user` of
-- app/repositories/org_repo.py finds, in the same order.
use mathlib.Core.List.{◌++◌}
use saas_backend_fastapi.Prelude.{String, List, [], ◌∷◌, ◌≡◌, refl, ap, sym, ◌∙◌, ◌==◌}
use saas_backend_fastapi.Prelude.Rows.{select}
use saas_backend_fastapi.Models.{User, Organization, Membership, MemberRole}
use saas_backend_fastapi.World.{Database}
use saas_backend_fastapi.Repositories.Organizations
use saas_backend_fastapi.Responses.{UserOrgResponse, with_role, load_organizations, user_response}

abbrev pub ids_shown : List UserOrgResponse → List String
ids_shown [] = []
ids_shown (r ∷ rs) = r.id ∷ ids_shown rs

abbrev pub ids_found : List Organization → List String
ids_found [] = []
ids_found (o ∷ os) = o.id ∷ ids_found os

ids_of_append : (xs ys : List UserOrgResponse) → ids_shown (xs ++ ys) ≡ ids_shown xs ++ ids_shown ys
ids_of_append [] ys = refl
ids_of_append (x ∷ xs) ys = ap (λ l. x.id ∷ l) (ids_of_append xs ys)

ids_of_joined : (xs ys : List Organization) → ids_found (xs ++ ys) ≡ ids_found xs ++ ids_found ys
ids_of_joined [] ys = refl
ids_of_joined (x ∷ xs) ys = ap (λ l. x.id ∷ l) (ids_of_joined xs ys)

ids-with_role :
    (role : MemberRole) (orgs : List Organization)
    → ids_shown (with_role role orgs) ≡ ids_found orgs
unfolding with_role
ids-with_role role [] = refl
ids-with_role role (o ∷ os) = ap (λ l. o.id ∷ l) (ids-with_role role os)

same_ids :
    (orgs : List Organization) (ms : List Membership)
    → ids_shown (load_organizations orgs ms) ≡ ids_found (Organizations.join_memberships orgs ms)
unfolding load_organizations Organizations.join_memberships
same_ids orgs [] = refl
same_ids orgs (m ∷ ms) =
    let here = select (Organizations.by_id m.organization_id) orgs in
    ids_of_append (with_role m.role here) (load_organizations orgs ms)
    ∙ ap (λ l. l ++ ids_shown (load_organizations orgs ms)) (ids-with_role m.role here)
    ∙ ap (λ l. ids_found here ++ l) (same_ids orgs ms)
    ∙ sym (ids_of_joined here (Organizations.join_memberships orgs ms))

-- The response of a user shows, by their ids and in the same order, the organizations that the list
-- of the user's organizations has.
pub user_response_organizations :
    (db : Database) (u : User)
    → ids_shown (user_response db u).organizations ≡ ids_found (Organizations.list_for_user u.id db)
unfolding user_response Organizations.list_for_user
user_response_organizations db u =
    same_ids db.organizations (select (λ m. m.user_id == u.id) db.memberships)
