-- ===== src/Core/Errors.antt =====
-- packages/core/src/novon/core/errors.py: the errors of a downstream call.
-- The subclasses of ServiceCallError are the constructors of `ErrorClass`; an exception is a record
-- with its class. Each constructor function below is one `__init__`.
pub mod Handlers
use platform_backend.Prelude.{ℕ, String, Bool, true, false, Option, none, some}

-- `AppError.__init__`, by its message.
pub record AppError : Type 0 where
  pub message : String

abbrev pub default_message : String
default_message = "Application error"

abbrev pub app_error : Option String → AppError
app_error none = record { message = default_message }
app_error (some text) = record { message = text }

pub data ErrorClass : Type 0 where
  service_call timeout unavailable response bad_request missing : ErrorClass

pub record ServiceCallError : Type 0 where
  pub error_class : ErrorClass
  pub message : String
  pub service_name : String
  pub status_code : Option ℕ
  pub response_body : Option String

abbrev pub service_call_error : String → String → Option ℕ → Option String → ServiceCallError
service_call_error message service_name status_code response_body = record {
  error_class = service_call;
  message = message;
  service_name = service_name;
  status_code = status_code;
  response_body = response_body;
}

abbrev pub service_timeout_error : String → String → ServiceCallError
service_timeout_error message service_name =
    record (service_call_error message service_name (some 504) none) { error_class = timeout }

abbrev pub service_unavailable_error : String → String → ServiceCallError
service_unavailable_error message service_name =
    record (service_call_error message service_name (some 502) none) { error_class = unavailable }

abbrev pub service_response_error : String → String → Option String → ServiceCallError
service_response_error message service_name response_body =
    record (service_call_error message service_name (some 502) response_body) {
      error_class = response;
    }

abbrev pub service_bad_request_error : String → String → ℕ → Option String → ServiceCallError
service_bad_request_error message service_name status_code response_body =
    record (service_call_error message service_name (some status_code) response_body) {
      error_class = bad_request;
    }

abbrev pub service_not_found_error : String → String → Option String → ServiceCallError
service_not_found_error message service_name response_body =
    record (service_call_error message service_name (some 404) response_body) {
      error_class = missing;
    }
