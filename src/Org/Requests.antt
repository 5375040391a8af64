-- ===== src/Org/Requests.antt =====
-- The requests that the calls of `Spec` stand for: methods of app/services/org_service.py, each in
-- its session.
use saas_backend_fastapi.Prelude.{List, [], ◌∷◌}
use saas_backend_fastapi.Platform.{Platform}
use saas_backend_fastapi.World.{World, Exec, pure, ◌>>◌, get_db}
use saas_backend_fastapi.Org
use saas_backend_fastapi.Org.Spec.{
  Call, create, update_member_role, remove_member, invite_member, accept_invitation, delete,
}

-- the request of a call
unfoldable pub perform : Platform → Call → Exec (Unit {0})
perform p (create name creator) = do Org.create p name creator; pure tt
perform p (update_member_role org target new_role actor) = do
  Org.update_member_role org target new_role actor
  pure tt
perform p (remove_member org target actor) = do Org.remove_member org target actor; pure tt
perform p (invite_member org email role actor) = do
  Org.invite_member p org email role actor
  pure tt
perform p (accept_invitation token user) = do Org.accept_invitation p token user; pure tt
perform p (delete org actor) = do Org.delete org actor; pure tt

-- the requests of a sequence of calls, each in its session
unfoldable pub serve : Platform → List Call → World → World
unfolding get_db perform
serve p [] w = w
serve p (c ∷ cs) w = serve p cs (get_db (perform p c) w).1
