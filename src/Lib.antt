-- ===== src/Lib.antt =====
-- The platform backend: a user service (UC), a flow service (Flow), and a backend for frontends
-- (BFF) that calls both over HTTP through clients built on one shared core.
--
-- How the parts interact. A request reaches an app through `RequestIDMiddleware`, which cleans the
-- two tracing headers. The BFF reads a `RequestContext` from the headers, makes it into the headers
-- of its own calls, and calls UC and Flow through `BaseServiceClient.request`, which retries,
-- translates a failed response or transport into a `ServiceCallError`, and parses the body. The
-- error handler turns that error into the reply of the BFF. The clients are declared by decorators,
-- which check a declaration and turn a call into a request. The routes of UC and Flow read and write dicts in memory,
-- in the threads of a pool, under a lock.
--
-- Which file models which part:
--   Prelude, Prelude/*         shared names, Boolean tests, list and text lemmas, decimal numerals
--   Dict, Dict/*               a Python dict: an association list in insertion order
--   Core/Typehints             packages/core/src/novon/core/http/typehints.py (unwrap_optional)
--   Core/ModelUtils            packages/core/src/novon/core/model_utils.py (partial_update_dict)
--   Core/ModelUtils/Conforms   what a model's declared fields promise, and the interface to
--                              pydantic's model_copy
--   Core/Errors                packages/core/src/novon/core/errors.py (the ServiceCallError classes)
--   Core/Errors/Handlers       packages/core/src/novon/core/service_error_handlers.py
--   Core/Client                packages/core/src/novon/core/http/base_client.py (the error mapping
--                              and _parse_response)
--   Core/Client/Request        the same file (_request_once, _request_with_retry, _should_retry,
--                              request); Core/Client/Retry and Core/Client/Parsing hold its laws
--   Core/Client/Final          the same file: a request whose first outcome is not tried again
--   Core/Client/Recovery       the same file: a request that fails for a while and then does not
--   Core/Client/Latency        the same file: how long a request with its retries can take
--   Core/Client/Init           the same file: __init__; Core/Settings is packages/core/src/novon/core/settings.py
--   Core/Feign                 packages/core/src/novon/core/http/feign.py (_build_spec, and the loop of
--                              the wrapper over the path parameters); Core/Feign/Spec and
--                              Core/Feign/PathArguments hold its laws
--   Core/Feign/Quote, Format   urllib.parse.quote and str.format_map, as _route uses them
--   Core/Feign/Template        path templates as lists of segments
--   Core/Feign/Call            the wrapper of _route, from the bound arguments to the request, and
--                              _resolve_return_contract
--   Core/Feign/Verbs           get, post, put, patch and delete, which declare an endpoint
--   Core/Logging               packages/core/src/novon/core/logging.py
--   Core/AppFactory            packages/core/src/novon/core/app_factory.py, and
--                              register_service_error_handlers
--   Core/Context               packages/core/src/novon/core/http/context.py (RequestContext)
--   Core/Middleware            packages/core/src/novon/core/middleware.py (RequestIDMiddleware)
--   Core/Middleware/Warnings   the same file: which request IDs are replaced and logged
--   UcApi, FlowApi             packages/uc-api and packages/flow-api, models.py; their children
--                              Protocol and Client are protocol.py and client.py
--   Uc, Uc/*                   apps/uc/src/novon/uc/api/routes.py
--   Flow, Flow/*               apps/flow/src/novon/flow/api/routes.py
--   Uc/Sections, Uc/Serve      the user routes as code under the lock, beside those in one step
--   Uc/Concurrent, and below   the user routes in threads: order, store, replies, races, later reads
--   Uc/Abstract, and below     the user store up to the order of its entries, as a quotient
--   Flow/Sections, Concurrent  the same for the flow routes; Flow/Typed is about their replies
--   Lock, Lock/*               threading.Lock around a store, and the threads that share it
--   Auth                       packages/auth/src/novon/auth/dependencies.py
--   Bff                        apps/bff/src/novon/bff/api/routes.py and dependencies.py
--   Bff/Outcomes, Replies      what the BFF answers for the outcomes of its calls
--   Bff/Users, Bff/Flows       its routes over the clients, the network and the routes of the services
--   Bff/Recovery               a read through the BFF while UC fails for a while
--   Bff/Latency                how long its routes can take
--   Bff/Lifespan               main.py and settings.py of the BFF: its clients from start-up to shutdown
--   Apps, Apps/Hops            main.py of the three applications, and one request over two of them
--   Mock, Mock/*               packages/test-utils/src/novon_test_utils/mock_router.py; Mock/Responses is
--                              helpers.py and plugin.py beside it; Mock/Transport is the router under
--                              the client of Core/Client
--   Tests/*                    concrete stores, payloads and networks, and runs on them
--
-- How the code is represented:
--   * Texts are strings. A model of pydantic is a record of values, where a value is null, a text or
--     a time; its declared annotations are a dict from the field's name. An update payload is the
--     dict that `model_dump(exclude_unset=True)` returns, so an unset field and an explicit null
--     are told apart, as in the source.
--   * The module-level dicts are a store that each route takes and returns (`Uc`, `Flow`). The same
--     routes are also given as the code under `with lock:` (`Section`), with one access for each look
--     at a dict and each write to it, where a missing key raises a KeyError. Threads run such code: one
--     that holds the lock makes its accesses one by one, the others wait for it, and any thread may move
--     at any time (`Lock.Threads.Step`, `Reach`); each request has its own thread. `datetime.now(UTC)`
--     and the text of `uuid4()` are arguments of a request.
--   * A route's reply is a value, an HTTPException with its status, or any other exception. An
--     error class is a data type, and its arguments are a record.
--   * Third-party code enters as the argument of the definitions that use it: pydantic's
--     `model_copy` (a function with the law that it replaces the fields named by the update and no
--     other), tenacity's `AsyncRetrying` (`Tenacity`: it returns what the body returns, raises what
--     is not to be retried or comes with the last attempt, and else sleeps and tries again), the
--     network behind httpx2 (a function from a request and the state of the world to an outcome, which
--     is a response, a TransportError or any other exception, and the next state), pydantic's `validate_python`, and the reading of a body as JSON.
--   * A client is a record of functions (`UcApi`, `FlowApi`) on the state of the world. A call that
--     is refused before it is sent, one that raises and one that returns are values of `Called`.
--     A model as an argument of a call is what the wrapper asks of it: whether it is None, its text,
--     and its dump (`Argument`, `Payloads`). Binding a call to a signature and resolving annotations
--     are Python's inspect and typing: the bound arguments and the hints are arguments.
--   * In the theorems on the BFF the network hands a request to the route of a service and the reply
--     back (`UcServer`, `FlowServer`), for ids without a slash, since a quoted slash is decoded before
--     the path is matched; the BFF answers under the status of the route's decorator; and FastAPI writes a reply as a response (`Writes`). `Delivers`
--     says that the transport brings the tracing headers over. Tests/Services and Tests/FlowService
--     give a network that does so, by reading the path of each request.
--   * The mock router is a dict from the key of a route to the route. Parsing a URL and iterating
--     a response, both httpx2's, are arguments; a callable side effect is a function of the request
--     and an iterable one a list. A handle to a route that a test keeps across `clear` is not followed.
--     Under the client the router raises transport errors only; its AssertionErrors are left out.
--   * The delays of the retry loop are in milliseconds. The time of a request is read from a clock of
--     the world, which the hypotheses bound for sending, logging and waiting.
--
-- Bounds and fuel. The retry loop is tenacity's, and its laws are proved by induction on the
-- attempts left, of which there are max_retries at the start; no fuel is added to it. The decimal
-- numeral of n is computed on fuel n + 1: each digit divides n by ten, so that many steps are
-- always enough. Quoting, unquoting and formatting are structural on the text.
--
-- Not modelled: FastAPI's routing, validation and dependency injection, what httpx does with a
-- connection pool, the cache of type adapters and that of the return contract (they change no
-- result), what the logging library writes, the reading of settings from the environment, the
-- bound on the threads of the pool (each request has a thread), and the tests, documents and build
-- files.
pub mod Prelude
pub mod Dict
pub mod Core
pub mod UcApi
pub mod FlowApi
pub mod Uc
pub mod Flow
pub mod Lock
pub mod Mock
pub mod Apps
pub mod Auth
pub mod Bff
mod Tests
