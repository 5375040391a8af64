-- ===== src/Errors.antt =====
-- app/core/exceptions.py, and the exceptions of the database layer that no handler catches.
use saas_backend_fastapi.Prelude.{ℕ, String, ◌++◌}

-- The subclasses of `AppError`, each with its detail.
pub data AppError : Type 0 where
  not_found conflict forbidden unauthorized bad_request unprocessable payment_required :
      String → AppError
  rate_limit : AppError

unfoldable pub status_code : AppError → ℕ
status_code (not_found d) = 404
status_code (conflict d) = 409
status_code (forbidden d) = 403
status_code (unauthorized d) = 401
status_code (bad_request d) = 400
status_code (unprocessable d) = 422
status_code (payment_required d) = 402
status_code rate_limit = 429

unfoldable pub detail : AppError → String
detail (not_found resource) = resource ++ " not found."
detail (conflict d) = d
detail (forbidden d) = d
detail (unauthorized d) = d
detail (bad_request d) = d
detail (unprocessable d) = d
detail (payment_required d) = d
detail rate_limit = "Too many requests. Please slow down."

-- What a handler may raise: an `AppError`, or an error that becomes a 500.
pub data Exception : Type 0 where
  app : AppError → Exception
  jwt_error : String → Exception
  integrity_error data_error multiple_results_found attribute_error key_error http_status_error
        send_error json_decode_error value_error redis_error :
      Exception
  diverges : Exception  -- a loop of the model ran out of rounds, which the source never does

-- The status of the response: `unhandled_exception_handler` answers 500 for all else.
unfoldable pub response_status : Exception → ℕ
unfolding status_code
response_status (app e) = status_code e
response_status _ = 500

pub data Result {ℓ} (A : Type ℓ) : Type ℓ where
  ok : A → Result A
  err : Exception → Result A
