-- ===== src/Core/AppFactory.antt =====
-- packages/core/src/novon/core/app_factory.py: what a service's application is made of. FastAPI is an
-- argument: `run` is the router's answer to a request that passed the middleware, error handlers
-- included.
use platform_backend.Prelude.{String, Bool, true, false}
use platform_backend.Core.Context.{HttpRequest, Supply}
use platform_backend.Core.Middleware.{HttpResponse, Dispatched, dispatch}

-- `error_handlers` says whether `register_service_error_handlers` was called on the application.
pub record App (S R : Type 0) : Type 0 where
  pub title : String
  pub settings : S
  pub router : R
  pub trust_inbound_trace : Bool
  pub error_handlers : Bool

module _ {S R : Type 0} where
  unfoldable pub create_basic_app : (S → String) → S → R → Bool → App S R
  create_basic_app service_name settings router trust_inbound_trace = record {
    title = service_name settings;
    settings = settings;
    router = router;
    trust_inbound_trace = trust_inbound_trace;
    error_handlers = false;
  }

  unfoldable pub register_service_error_handlers : App S R → App S R
  register_service_error_handlers app = record app { error_handlers = true }

  -- A request to the application, through its middleware.
  unfoldable pub serve :
      {W : Type 0}
      → (R → Bool → HttpRequest → W → HttpResponse × W)
      → App S R
      → HttpRequest
      → Supply
      → W
      → Dispatched W
  unfolding dispatch
  serve run app request supply w =
      dispatch app.trust_inbound_trace (run app.router app.error_handlers) request supply w
