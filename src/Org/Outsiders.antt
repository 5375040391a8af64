-- ===== src/Org/Outsiders.antt =====
-- Who can become a member through app/services/org_service.py, over any sequence of requests.
use saas_backend_fastapi.Prelude.{
  String, Bool, false, ◌&&◌, Option, none, some, List, ◌==◌, ◌≡◌, refl, ap, sym, ◌∙◌, inl, inr,
  arith, Bool-cases, eq_iff, &&-eq-true, if◌then◌else◌,
}
use saas_backend_fastapi.Prelude.Rows.{any}
use saas_backend_fastapi.Models.{MemberRole}
use saas_backend_fastapi.Platform.{Platform}
use saas_backend_fastapi.World.{World}
use saas_backend_fastapi.Org.Spec.{
  Call, Step, Run, done, step, create, update_member_role, remove_member, invite_member,
  accept_invitation, delete, Roles, roles_of, assign, may_change, IsConsistent,
}
use saas_backend_fastapi.Org.Requests.{serve}
use saas_backend_fastapi.Org.Refinement.{serve_refines}

-- the calls by which a user asks to become a member
abbrev pub asks_to_join : String → Call → Bool
asks_to_join user_id (create name creator) = creator.id == user_id
asks_to_join user_id (accept_invitation token user) = user.id == user_id
asks_to_join user_id _ = false

assign_apart :
    (o u o' u' : String) (role : Option MemberRole) (r : Roles)
    → (u' == u) ≡ false
    → r o u ≡ none
    → assign o' u' role r o u ≡ none
assign_apart o u o' u' role r e h = ground (arith, eq_iff u u', eq_iff u' u)

may_change_nobody : (a b : Option MemberRole) → b ≡ none → may_change a b ≡ false
unfolding may_change
may_change_nobody a b e = rw e refl

-- The role of nobody is not changed.
change_apart :
    (o u o' u' : String) (a role : Option MemberRole) (r : Roles)
    → r o u ≡ none
    → (if may_change a (r o' u') then assign o' u' role r else r) o u ≡ none
change_apart o u o' u' a role r out = elim (Bool-cases (u == u' && o == o')) [
  | inl same ↦
      let (same_user, same_org) = &&-eq-true (u == u') (o == o') same in
      let nobody : r o' u' ≡ none =
        ap (r o') (sym ((eq_iff u u').0 same_user))
        ∙ ap (λ x. r x u) (sym ((eq_iff o o').0 same_org))
        ∙ out in
      rw (may_change_nobody a (r o' u') nobody) out
  | inr other ↦ elim (Bool-cases (may_change a (r o' u'))) [
    | inl may ↦ rw (may, other) out
    | inr may_not ↦ rw may_not out
  ]
]

module _ (user_id org_id : String) where
  no_role_kept :
      (c : Call) (r r' : Roles)
      → Step c r r'
      → asks_to_join user_id c ≡ false
      → r org_id user_id ≡ none
      → r' org_id user_id ≡ none
  no_role_kept (create name creator) r r' (inl e) other out = rw e out
  no_role_kept (create name creator) r r' (inr (o, nobody, e)) other out =
      rw e (assign_apart org_id user_id o creator.id _ r other out)
  no_role_kept (update_member_role org target new_role actor) r r' e other out =
      rw e (change_apart org_id user_id org.id target (r org.id actor.id) (some new_role) r out)
  no_role_kept (remove_member org target actor) r r' e other out = ground arith
  no_role_kept (invite_member org email role actor) r r' e other out = rw e out
  no_role_kept (accept_invitation token user) r r' (inl e) other out = rw e out
  no_role_kept (accept_invitation token user) r r' (inr (o, role, nobody, e)) other out =
      rw e (assign_apart org_id user_id o user.id _ r other out)
  no_role_kept (delete org actor) r r' (inl e) other out = rw e out
  no_role_kept (delete org actor) r r' (inr (holds, e)) other out = rw e (ground arith)

  Run-keeps_out :
      {cs : List Call} {r r' : Roles}
      → Run cs r r'
      → any (asks_to_join user_id) cs ≡ false
      → r org_id user_id ≡ none
      → r' org_id user_id ≡ none
  unfolding any
  Run-keeps_out done others out = out
  Run-keeps_out (step {c} {r = r} {r' = r'} first rest) others out =
      Run-keeps_out rest (ground arith) (no_role_kept c r r' first (ground arith) out)

-- A user without a role in an organization has none after any sequence of requests in which the
-- user creates no organization and accepts no invitation, whoever else calls what; nobody can make
-- another user a member. Ids and pairs are unique in the first database.
pub outsider_stays_out :
    (p : Platform) (cs : List Call) (w : World) (user_id org_id : String)
    → IsConsistent w.db
    → any (asks_to_join user_id) cs ≡ false
    → roles_of w.db org_id user_id ≡ none
    → roles_of (serve p cs w).db org_id user_id ≡ none
outsider_stays_out p cs w user_id org_id known others out =
    Run-keeps_out user_id org_id (serve_refines p cs w known).0 others out
