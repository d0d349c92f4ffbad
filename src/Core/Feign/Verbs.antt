-- ===== src/Core/Feign/Verbs.antt =====
-- packages/core/src/novon/core/http/feign.py: the decorators, by the HTTP method that they name. A
-- decorated function is its parameters and its annotations.
use platform_backend.Prelude.{String, List}
use platform_backend.Dict.{Dict}
use platform_backend.Core.Typehints.{Annotation}
use platform_backend.Core.Feign.Call.{Endpoint}

module _ (path : String) (parameters : List String) (hints : Dict String Annotation) where
  abbrev pub get : Endpoint
  get = record { method = "GET"; path = path; parameters = parameters; hints = hints }

  abbrev pub post : Endpoint
  post = record { method = "POST"; path = path; parameters = parameters; hints = hints }

  abbrev pub put : Endpoint
  put = record { method = "PUT"; path = path; parameters = parameters; hints = hints }

  abbrev pub patch : Endpoint
  patch = record { method = "PATCH"; path = path; parameters = parameters; hints = hints }

  abbrev pub delete : Endpoint
  delete = record { method = "DELETE"; path = path; parameters = parameters; hints = hints }
