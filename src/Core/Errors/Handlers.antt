-- ===== src/Core/Errors/Handlers.antt =====
-- packages/core/src/novon/core/service_error_handlers.py: the answer to a failed downstream call.
use platform_backend.Prelude.{ℕ, String, Option, none, some, ◌==◌, nat_eq, if◌then◌else◌, prefix}
use platform_backend.Core.Errors.{
  ErrorClass, service_call, timeout, unavailable, response, bad_request, missing, ServiceCallError,
}

-- `status_code or 400`: zero is as good as no status.
abbrev pub or_400 : Option ℕ → ℕ
or_400 none = 400
or_400 (some code) = if code == 0 then 400 else code

abbrev status_of_class : ErrorClass → Option ℕ → ℕ
status_of_class timeout code = 504
status_of_class unavailable code = 502
status_of_class missing code = 404
status_of_class bad_request code = or_400 code
status_of_class response code = 502
status_of_class service_call code = 502

unfoldable pub map_service_error_to_status : ServiceCallError → ℕ
map_service_error_to_status exc = status_of_class exc.error_class exc.status_code

-- `exc.__class__.__name__`
abbrev pub class_name : ErrorClass → String
class_name service_call = "ServiceCallError"
class_name timeout = "ServiceTimeoutError"
class_name unavailable = "ServiceUnavailableError"
class_name response = "ServiceResponseError"
class_name bad_request = "ServiceBadRequestError"
class_name missing = "ServiceNotFoundError"

pub record ErrorContent : Type 0 where
  pub error : String
  pub message : String
  pub service : String
  pub status_code : Option ℕ

pub record JsonResponse : Type 0 where
  pub status : ℕ
  pub content : ErrorContent

-- The arguments of `logger.error`.
pub record ContractLog : Type 0 where
  pub service : String
  pub message : String
  pub body : String

abbrev or_empty : Option String → String
or_empty none = ""
or_empty (some s) = s

abbrev contract_log : ErrorClass → ServiceCallError → Option ContractLog
contract_log response exc = some (record {
  service = exc.service_name;
  message = exc.message;
  body = prefix 1024 (or_empty exc.response_body);
})
contract_log _ exc = none

-- The answer, and what is logged.
unfoldable pub service_call_error_handler : ServiceCallError → JsonResponse × Option ContractLog
unfolding map_service_error_to_status
service_call_error_handler exc = (
  record {
    status = map_service_error_to_status exc;
    content = record {
      error = class_name exc.error_class;
      message = exc.message;
      service = exc.service_name;
      status_code = exc.status_code;
    };
  },
  contract_log exc.error_class exc,
)
