-- ===== src/Core/Middleware/Warnings.antt =====
-- packages/core/src/novon/core/middleware.py: when a replaced request ID is logged, and how much of it.
use platform_backend.Prelude.{
  ℕ, zero, suc, String, ◌≡◌, ◌≤◌, ◌⊎◌, inl, inr, refl, arith, Bool, true, false, none, some,
  string_eq, ◌==◌, prefix, is_empty, beq_self, eq_iff, Bool-cases, Option-cases,
}
use platform_backend.Dict.{get}
use platform_backend.Core.Context.{HttpRequest, Supply, draw}
use platform_backend.Core.Middleware.{
  fullmatch, HttpResponse, text_length, sanitize_header_token, dispatch,
}
use platform_backend.Core.Middleware.Laws.{IsToken, done, sanitize_of_token}

prefix_short : (n : ℕ) (s : String) → text_length (prefix n s) ≤ n
prefix_short zero s = omega arith
prefix_short (suc n) String.[] = omega arith
prefix_short (suc n) (String.◌∷◌ c s) = omega (arith, prefix_short n s)

sanitize_of_unsafe :
    (raw : String) (supply : Supply)
    → fullmatch raw ≡ false
    → sanitize_header_token (some raw) supply ≡ draw supply
unfolding sanitize_header_token
sanitize_of_unsafe raw supply bad = elim (Bool-cases (is_empty raw)) [
  | inl empty ↦ rw empty refl
  | inr full ↦ rw (full, bad) refl
]

-- A token is no text that the pattern refuses.
token_differs :
    (token raw : String) → IsToken token → fullmatch raw ≡ false → (token == raw) ≡ false
token_differs token raw good bad = elim (Bool-cases (token == raw)) [
  | inl same ↦ cc (good, bad, (eq_iff token raw).0 same)
  | inr other ↦ other
]

module _ {W : Type 0} (trust : Bool) (call_next : HttpRequest → W → HttpResponse × W)
    (request : HttpRequest) (supply : Supply) (w : W) where
  -- If the next UUID is a token, then one of three holds. The caller sent no request ID, nothing is
  -- logged, and the application sees that UUID as the ID. Or it sent a safe token, nothing is logged,
  -- and the application sees that token. Or it sent anything else: then the first 64 characters of it
  -- are logged, at most 64 whatever its length, and the application sees the UUID.
  pub dispatch_warns :
      IsToken (supply 0)
      → ((get "x-request-id" request.headers ≡ none)
          × ((done trust call_next request supply w).warning ≡ none)
          × ((done trust call_next request supply w).forwarded.state.request_id ≡ some (supply 0)))
        ⊎ ((raw : String) × (get "x-request-id" request.headers ≡ some raw)
            × (((fullmatch raw ≡ true)
                  × ((done trust call_next request supply w).warning ≡ none)
                  × ((done trust call_next request supply w).forwarded.state.request_id ≡ some raw))
                ⊎ ((fullmatch raw ≡ false)
                    × ((done trust call_next request supply w).warning ≡ some (prefix 64 raw))
                    × (text_length (prefix 64 raw) ≤ 64)
                    × ((done trust call_next request supply w).forwarded.state.request_id
                        ≡ some (supply 0)))))
  unfolding dispatch sanitize_header_token
  dispatch_warns token = elim (Option-cases (get "x-request-id" request.headers)) [
    | inl missing ↦ inl (missing, rw missing refl, rw missing refl)
    | inr (raw, sent) ↦ inr (
      raw,
      sent,
      elim (Bool-cases (fullmatch raw)) [
        | inl good ↦
            let kept = sanitize_of_token raw supply good in
            inl (good, rw (sent, kept, beq_self raw) refl, rw (sent, kept) refl)
        | inr bad ↦
            let drawn = sanitize_of_unsafe raw supply bad in
            inr (
              bad,
              rw (sent, drawn, token_differs (supply 0) raw token bad) refl,
              prefix_short 64 raw,
              rw (sent, drawn) refl,
            )
      ],
    )
  ]
