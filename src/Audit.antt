-- ===== src/Audit.antt =====
-- app/services/audit_log_service.py
use saas_backend_fastapi.Prelude.{String, Option, none, some, List}
use saas_backend_fastapi.Models.{AuditLog}
use saas_backend_fastapi.Platform.{Platform}
use saas_backend_fastapi.World.{Exec}
use saas_backend_fastapi.Deps.{get_client_ip}
use saas_backend_fastapi.Repositories.AuditLogs

-- what the log reads of a request: X-Forwarded-For, the address of the peer and User-Agent
pub record Request : Type 0 where
  pub forwarded : Option String
  pub host : Option String
  pub user_agent : Option String

abbrev pub ip_address_of : Option Request → Option String
ip_address_of none = none
ip_address_of (some request) = get_client_ip request.forwarded request.host

abbrev pub user_agent_of : Option Request → Option String
user_agent_of none = none
user_agent_of (some request) = request.user_agent

unfoldable pub log :
    Platform
    → String
    → Option String
    → Option String
    → Option String
    → Option String
    → Option Request
    → Option (List (String × String))
    → Exec AuditLog
log p action user_id organization_id resource_type resource_id request meta =
    AuditLogs.create p action user_id organization_id resource_type resource_id
      (ip_address_of request) (user_agent_of request) meta
