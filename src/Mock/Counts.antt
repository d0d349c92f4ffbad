-- ===== src/Mock/Counts.antt =====
-- packages/test-utils/src/novon_test_utils/mock_router.py: what a test reads after some requests.
use mathlib.Core.List.{append-nil, append_assoc}
use platform_backend.Prelude.{
  ◌+◌, String, ◌≡◌, refl, sym, ap, ◌∙◌, ◌||◌, Option, none, some, List, [], ◌∷◌, ◌++◌, ◌==◌, nat_eq,
  if◌then◌else◌, length, Option-cases, Bool-cases, inl, inr, some_inj, none-ne-some, length-append,
}
use platform_backend.Dict.{get}
use platform_backend.Mock.{
  UrlParts, RouteKey, key_eq, route_key, Request, Item, MockRoute, MockRouter, handle, handle_all,
}
use platform_backend.Mock.Calls.{calls_of, calls_in, calls_of-handle}
use platform_backend.Mock.Verbs.{is_called, last, called, call_count}

-- The requests that have a key, in their order.
abbrev pub matching :
    {B : Type 0} → (String → UrlParts) → RouteKey → List (Request B) → List (Request B)
matching url key [] = []
matching url key (q ∷ qs) =
    let rest = matching url key qs in if route_key url q.method q.url == key then q ∷ rest else rest

-- The last of the later calls, or else the last of the earlier ones.
abbrev pub later_or : {B : Type 0} → Option (Request B) → Option (Request B) → Option (Request B)
later_or none earlier = earlier
later_or (some q) earlier = some q

is_called-append :
    {B : Type 0} (old new : List (Request B))
    → is_called (old ++ new) ≡ (is_called old || is_called new)
is_called-append [] new = refl
is_called-append (q ∷ old) new = refl

later_or-none : {B : Type 0} (o : Option (Request B)) → later_or o none ≡ o
later_or-none none = refl
later_or-none (some q) = refl

later_or-last :
    {B : Type 0} (q r : Request B) (calls : List (Request B))
    → last (r ∷ calls) ≡ later_or (last (r ∷ calls)) (some q)
later_or-last q r [] = refl
later_or-last q r (s ∷ calls) = later_or-last q s calls

last-append :
    {B : Type 0} (old new : List (Request B)) → last (old ++ new) ≡ later_or (last new) (last old)
last-append [] new = sym (later_or-none (last new))
last-append (q ∷ []) [] = refl
last-append (q ∷ []) (r ∷ new) = later_or-last q r new
last-append (q ∷ r ∷ old) new = last-append (r ∷ old) new

module _ {R E B : Type 0} (url : String → UrlParts)
    (iter_response : R → Option (List (Item R E))) where
  calls_of-handle_all :
      (qs : List (Request B)) (router : MockRouter R E B) (key : RouteKey) (old : List (Request B))
      → calls_of key router ≡ some old
      → calls_of key (handle_all url iter_response qs router).1 ≡ some (old ++ matching url key qs)
  unfolding handle_all
  calls_of-handle_all [] router key old h = h ∙ ap some (sym (append-nil old))
  calls_of-handle_all (q ∷ qs) router key old h =
      elim (Bool-cases (route_key url q.method q.url == key)) [
        | inl same ↦
            let grown : calls_of key (handle url iter_response q router).1
                ≡ some (old ++ (q ∷ [])) =
              calls_of-handle url iter_response q router key ∙ rw (same, h) refl in
            calls_of-handle_all qs (handle url iter_response q router).1 key (old ++ (q ∷ [])) grown
            ∙ ap some (append_assoc old (q ∷ []) (matching url key qs))
            ∙ rw same refl
        | inr other ↦
            let same_calls : calls_of key (handle url iter_response q router).1 ≡ some old =
              calls_of-handle url iter_response q router key ∙ rw (other, h) refl in
            calls_of-handle_all qs (handle url iter_response q router).1 key old same_calls
            ∙ rw other refl
      ]

  -- After any sequence of requests the route under a key is still registered; its record is the earlier
  -- one with the requests for the key appended in their order, whatever they were answered with, so
  -- `call_count` has grown by their number, `called` says whether there is one, and `last` is the last of
  -- them.
  pub counts-handle_all :
      (qs : List (Request B)) (router : MockRouter R E B) (key : RouteKey) (route : MockRoute R E B)
      → get key router ≡ some route
      → (route' : MockRoute R E B) × (get key (handle_all url iter_response qs router).1
          ≡ some route')
        × (route'.calls ≡ route.calls ++ matching url key qs)
        × (call_count route' ≡ call_count route + length (matching url key qs))
        × (called route' ≡ (called route || is_called (matching url key qs)))
        × (last route'.calls ≡ later_or (last (matching url key qs)) (last route.calls))
  unfolding calls_of
  counts-handle_all qs router key route found =
      let recorded = calls_of-handle_all qs router key route.calls (ap calls_in found) in
      elim (Option-cases (get key (handle_all url iter_response qs router).1)) [
        | inl missing ↦ absurd (none-ne-some (sym (ap calls_in missing) ∙ recorded))
        | inr (route', found') ↦
            let same = some_inj (sym (ap calls_in found') ∙ recorded) in
            (
              route',
              found',
              same,
              ap length same ∙ length-append route.calls (matching url key qs),
              ap is_called same ∙ is_called-append route.calls (matching url key qs),
              ap last same ∙ last-append route.calls (matching url key qs),
            )
      ]
