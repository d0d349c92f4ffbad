-- ===== src/Auth.antt =====
-- packages/auth/src/novon/auth: the identity of a request's user, which the source fixes.
use platform_backend.Prelude.{String}

unfoldable pub get_current_user : String
get_current_user = "anonymous"
