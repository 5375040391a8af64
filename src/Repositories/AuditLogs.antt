-- ===== src/Repositories/AuditLogs.antt =====
-- app/repositories/audit_log_repo.py
use saas_backend_fastapi.Prelude.{ℕ, String, Option, List, column_eq, ◌&&◌, if◌then◌else◌}
use saas_backend_fastapi.Prelude.Rows.{select, insert, order_desc, take, drop}
use saas_backend_fastapi.Models.{AuditLog}
use saas_backend_fastapi.Platform.{Platform}
use saas_backend_fastapi.Errors.{integrity_error}
use saas_backend_fastapi.Repositories.Users
use saas_backend_fastapi.Repositories.Organizations
use saas_backend_fastapi.World.{Database, Exec, pure, draw, get_now, modify, throw, ◌>>=◌, ◌>>◌}

-- `db.add(log)`, `db.flush()`
unfoldable pub add : AuditLog → Exec (Unit {0})
add log w =
    if Users.refers log.user_id w.db && Organizations.refers log.organization_id w.db
    then modify (λ db. record db { audit_logs = insert log db.audit_logs }) w
    else throw integrity_error w

unfoldable pub create :
    Platform
    → String
    → Option String
    → Option String
    → Option String
    → Option String
    → Option String
    → Option String
    → Option (List (String × String))
    → Exec AuditLog
unfolding add
create p action user_id organization_id resource_type resource_id ip_address user_agent meta = do
  id ← draw p.ulid
  now ← get_now
  let log : AuditLog = record {
    id = id;
    organization_id = organization_id;
    user_id = user_id;
    action = action;
    resource_type = resource_type;
    resource_id = resource_id;
    ip_address = ip_address;
    user_agent = user_agent;
    meta = meta;
    created_at = now;
  }
  add log
  pure log

unfoldable pub list_by_org : String → ℕ → ℕ → Database → List AuditLog
list_by_org org_id limit offset db = take limit (
    drop offset (
      order_desc (λ l. l.created_at)
        (select (λ l. column_eq l.organization_id org_id) db.audit_logs)))
