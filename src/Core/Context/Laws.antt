-- ===== src/Core/Context/Laws.antt =====
-- The headers that a context sends.
use platform_backend.Prelude.{
  String, ◌≡◌, refl, Option, none, some, if◌then◌else◌, is_empty, ◌==◌, string_eq, arith,
}
use platform_backend.Dict.{Dict, get}
use platform_backend.Dict.Laws.{get-put}
use platform_backend.Core.Context.{RequestContext, to_headers, put_if}

-- A field that is None or empty sends no header.
abbrev pub sent : Option String → Option String
sent none = none
sent (some s) = if is_empty s then none else some s

abbrev first : Option String → Option String → Option String
first none old = old
first (some s) old = some s

first-none : (o : Option String) → first o none ≡ o
first-none none = refl
first-none (some s) = refl

get-put_if :
    (name k : String) (v : Option String) (d : Dict String String)
    → get k (put_if name v d) ≡ (if name == k then first (sent v) (get k d) else get k d)
get-put_if name k none d = ground arith
get-put_if name k (some s) d = ground (arith, get-put name k s d)

-- Each header of a context holds its field's text, and is absent where the field is None or empty.
pub get-to_headers :
    (ctx : RequestContext)
    → (get "Authorization" (to_headers ctx) ≡ sent ctx.auth_token)
      × (get "X-Request-ID" (to_headers ctx) ≡ sent ctx.request_id)
      × (get "X-Trace-ID" (to_headers ctx) ≡ sent ctx.trace_id)
      × (get "X-User-ID" (to_headers ctx) ≡ sent ctx.user_id)
unfolding to_headers get
get-to_headers ctx = (
  simp (get-put_if, first-none),
  simp (get-put_if, first-none),
  simp (get-put_if, first-none),
  simp (get-put_if, first-none),
)
