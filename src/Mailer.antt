-- ===== src/Mailer.antt =====
-- app/lib/email.py: without an API key a message is only logged; a failure to send is raised, except
-- by `send_invitation_email`, which catches it.
use saas_backend_fastapi.Prelude.{String, ◌==◌, ◌∷◌, if◌then◌else◌}
use saas_backend_fastapi.Errors.{ok, send_error}
use saas_backend_fastapi.Models.{MemberRole}
use saas_backend_fastapi.Platform.{Platform}
use saas_backend_fastapi.World.{
  Exec, Mail, verification_email, password_reset_email, invitation_email, welcome_email, pure,
  throw,
}
use saas_backend_fastapi.Security.{except}

module _ (p : Platform) where
  -- `_send`
  unfoldable pub send : Mail → Exec (Unit {0})
  send mail w =
      if p.settings.resend_api_key == ""
      then pure tt w
      else if w.mailer_up
      then (ok tt, record w { outbox = mail ∷ w.outbox })
      else throw send_error w

  unfoldable pub send_verification_email : String → String → String → Exec (Unit {0})
  send_verification_email to full_name token = send (verification_email to full_name token)

  unfoldable pub send_password_reset_email : String → String → Exec (Unit {0})
  send_password_reset_email to token = send (password_reset_email to token)

  unfoldable pub send_invitation_email :
      String → String → String → String → MemberRole → Exec (Unit {0})
  send_invitation_email to invited_by org_name token role =
      except (send (invitation_email to invited_by org_name token role)) (pure tt)

  unfoldable pub send_welcome_email : String → String → Exec (Unit {0})
  send_welcome_email to full_name = send (welcome_email to full_name)
