-- ===== src/Auth/OAuth.antt =====
-- `oauth_login_or_register` of app/services/auth_service.py: accounts and the identities of
-- providers.
use saas_backend_fastapi.Prelude.{
  suc, String, ◌≡◌, refl, sym, ap, ◌∙◌, ◌&&◌, Bool, true, false, Option, none, some, [], ◌∷◌, arith,
  eq_refl, column_eq, inl, inr, Bool-cases,
}
use saas_backend_fastapi.Prelude.Rows.{
  select, any, insert, update_where, select_unique, update_where_one, select-update_make,
  select-insert_alone,
}
use saas_backend_fastapi.Errors.{ok, err, integrity_error}
use saas_backend_fastapi.Models.{
  User, user_clash, OAuthProvider, local, google, github, same_provider,
}
use saas_backend_fastapi.Text.{normalize_email}
use saas_backend_fastapi.Platform.{Platform}
use saas_backend_fastapi.World.{World, scalar_one_or_none, insert_row, ◌>>=◌}
use saas_backend_fastapi.World.Laws.{scalar-cases, bind_ok}
use saas_backend_fastapi.Repositories.Users
use saas_backend_fastapi.Auth.{oauth_login_or_register, link_or_create, issue_tokens, with_oauth}
use saas_backend_fastapi.Schemas.{TokenPair}
use saas_backend_fastapi.Auth.Registration.{tokens_for, issue_tokens_lem}
use saas_backend_fastapi.Auth.Reset.{UsersAreUnique}

same_provider_refl : (r : OAuthProvider) → same_provider r r ≡ true
same_provider_refl local = refl
same_provider_refl google = refl
same_provider_refl github = refl

module _ (p : Platform) (provider : OAuthProvider) (provider_id : String) where
  abbrev pub by_oauth : User → Bool
  by_oauth u = same_provider u.oauth_provider provider && column_eq u.oauth_provider_id provider_id

  linked : (u : User) → by_oauth (with_oauth provider provider_id u) ≡ true
  linked u = ground (arith, same_provider_refl provider, eq_refl provider_id)

  oauth_known :
      (email : String) (name avatar : Option String) (w : World) (u : User)
      → select by_oauth w.db.users ≡ u ∷ []
      → oauth_login_or_register p provider provider_id email name avatar w
        ≡ (ok (tokens_for p u.id w), w)
  unfolding oauth_login_or_register Users.get_by_oauth scalar_one_or_none
  oauth_known email name avatar w u e = rw (e, issue_tokens_lem p u.id w) refl

  abbrev pub oauth_user : String → Option String → Option String → World → User
  oauth_user email name avatar w = record {
    id = p.ulid w.drawn;
    email = normalize_email email;
    hashed_password = none;
    full_name = name;
    avatar_url = avatar;
    is_active = true;
    is_superuser = false;
    is_verified = true;
    verification_token = none;
    reset_token = none;
    oauth_provider = provider;
    oauth_provider_id = some provider_id;
    mfa_enabled = false;
    mfa_secret = none;
    created_at = w.now;
  }

  module _ (email : String) (name avatar : Option String) (w : World) where
    abbrev new : User
    new = oauth_user email name avatar w

    create_new :
        select (Users.by_email email) w.db.users ≡ []
        → any (user_clash new) w.db.users ≡ false
        → link_or_create p provider provider_id email name avatar w ≡ (
          ok new.id,
          record w { db = record w.db { users = insert new w.db.users }; drawn = suc w.drawn },
        )
    unfolding link_or_create Users.get_by_email scalar_one_or_none Users.create insert_row
    create_new e free = rw (e, free) refl

    create_clash :
        select (Users.by_email email) w.db.users ≡ []
        → any (user_clash new) w.db.users ≡ true
        → (link_or_create p provider provider_id email name avatar w).0 ≡ err integrity_error
    unfolding link_or_create Users.get_by_email scalar_one_or_none Users.create insert_row
    create_clash e clash = rw (e, clash) refl

    link_found :
        (u : User)
        → select (Users.by_email email) w.db.users ≡ u ∷ []
        → link_or_create p provider provider_id email name avatar w ≡ (
          ok u.id,
          record w {
            db = record w.db {
              users = update_where (Users.by_id u.id) (with_oauth provider provider_id) w.db.users;
            };
          },
        )
    unfolding link_or_create Users.get_by_email scalar_one_or_none Users.save
    link_found u e = rw e refl

    linked_row :
        (u : User)
        → UsersAreUnique w.db
        → select by_oauth w.db.users ≡ []
        → select (Users.by_email email) w.db.users ≡ u ∷ []
        → select by_oauth
            (update_where (Users.by_id u.id) (with_oauth provider provider_id) w.db.users)
          ≡ with_oauth provider provider_id u ∷ []
    linked_row u unique none_yet e =
        select-update_make by_oauth (Users.by_id u.id) (with_oauth provider provider_id) w.db.users
          linked none_yet
        ∙ ap (update_where (Users.by_id u.id) (with_oauth provider provider_id)) (
            select_unique (Users.by_email email) (Users.by_id u.id) w.db.users (unique.ids u.id) e
              (eq_refl u.id))
        ∙ update_where_one (Users.by_id u.id) (with_oauth provider provider_id) u (eq_refl u.id)

    -- What `link_or_create` leaves: the one account of the identity.
    link_or_create_sound :
        (w' : World) (user_id : String)
        → UsersAreUnique w.db
        → select by_oauth w.db.users ≡ []
        → link_or_create p provider provider_id email name avatar w ≡ (ok user_id, w')
        → (w'.now ≡ w.now) × (u : User) × (select by_oauth w'.db.users ≡ u ∷ []) × (u.id ≡ user_id)
    unfolding link_or_create Users.get_by_email
    link_or_create_sound w' user_id unique none_yet h =
        elim (scalar-cases (select (Users.by_email email) w.db.users)) [
          | inl (e, s) ↦ elim (Bool-cases (any (user_clash new) w.db.users)) [
            | inl clash ↦ let failed = create_clash e clash in absurd (ground arith)
            | inr free ↦
                let done = sym (create_new e free) ∙ h in
                (
                  sym (ap (λ x. x.1.now) done),
                  new,
                  ap (λ x. select by_oauth x.1.db.users) (sym done)
                      ∙ select-insert_alone by_oauth new w.db.users (linked new) none_yet,
                  ground arith,
                )
          ]
          | inr (inl (u, e, s)) ↦
              let done = sym (link_found u e) ∙ h in
              (
                sym (ap (λ x. x.1.now) done),
                with_oauth provider provider_id u,
                ap (λ x. select by_oauth x.1.db.users) (sym done) ∙ linked_row u unique none_yet e,
                ground arith,
              )
          | inr (inr s) ↦ absurd (ground arith)
        ]

    oauth_new :
        select by_oauth w.db.users ≡ []
        → oauth_login_or_register p provider provider_id email name avatar w
          ≡ (link_or_create p provider provider_id email name avatar >>= issue_tokens p) w
    unfolding oauth_login_or_register Users.get_by_oauth scalar_one_or_none
    oauth_new e = rw e refl

    tokens_congr :
        (a b : String) (v v' : World)
        → a ≡ b
        → v.now ≡ v'.now
        → tokens_for p a v ≡ tokens_for p b v'
    tokens_congr a b v v' e n = rw (e, n) refl

    found_after :
        (w' : World) (pair : TokenPair)
        → UsersAreUnique w.db
        → oauth_login_or_register p provider provider_id email name avatar w ≡ (ok pair, w')
        → (u : User) × (select by_oauth w'.db.users ≡ u ∷ []) × (pair ≡ tokens_for p u.id w)
    unfolding oauth_login_or_register Users.get_by_oauth
    found_after w' pair unique h = elim (scalar-cases (select by_oauth w.db.users)) [
      | inl (e, s) ↦
          let (id, first, second) =
            bind_ok (link_or_create p provider provider_id email name avatar) (issue_tokens p) w
              (sym (oauth_new e) ∙ h) in
          let (now, u, row, same) = link_or_create_sound _ id unique e first in
          let v : World = (link_or_create p provider provider_id email name avatar w).1 in
          let done = sym (issue_tokens_lem p id v) ∙ second in
          let given : pair ≡ tokens_for p id v = ground arith in
          (
            u,
            ap (λ x. select by_oauth x.1.db.users) (sym done) ∙ row,
            given ∙ sym (tokens_congr u.id id w v same (sym now)),
          )
      | inr (inl (u, e, s)) ↦
          let done = sym (oauth_known email name avatar w u e) ∙ h in
          (u, ap (λ x. select by_oauth x.1.db.users) (sym done) ∙ e, ground arith)
      | inr (inr s) ↦ absurd (ground arith)
    ]

    -- A login through a provider gives tokens for one account, and every later login with the same
    -- identity, whatever address, name and picture it brings, gives tokens for the same account and
    -- changes nothing, as long as the table of users is the same. Ids and addresses are unique.
    pub oauth_login_or_register_again :
        (w' : World) (pair : TokenPair)
        → UsersAreUnique w.db
        → oauth_login_or_register p provider provider_id email name avatar w ≡ (ok pair, w')
        → (u : User) × (select by_oauth w'.db.users ≡ u ∷ [])
          × (pair ≡ tokens_for p u.id w)
          × ((email' : String) (name' avatar' : Option String) (later : World)
              → later.db.users ≡ w'.db.users
              → oauth_login_or_register p provider provider_id email' name' avatar' later
                ≡ (ok (tokens_for p u.id later), later))
    oauth_login_or_register_again w' pair unique h =
        let (u, row, tokens) = found_after w' pair unique h in
        (
          u,
          row,
          tokens,
          λ email' name' avatar' later kept.
              oauth_known email' name' avatar' later u (ap (select by_oauth) kept ∙ row),
        )
