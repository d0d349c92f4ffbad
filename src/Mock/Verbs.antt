-- ===== src/Mock/Verbs.antt =====
-- packages/test-utils/src/novon_test_utils/mock_router.py: registering by the name of a method, and the
-- record of calls as a test reads it.
use platform_backend.Prelude.{
  ◌≡◌, refl, arith, ℕ, zero, suc, ◌-◌, ltb, if◌then◌else◌, String, Bool, true, false, Option, none,
  some, List, [], ◌∷◌, ◌==◌, nat_eq, length,
}
use platform_backend.Mock.{UrlParts, Request, Item, MockRoute, MockRouter, register}

module _ {R E B : Type 0} (url : String → UrlParts)
    (iter_response : R → Option (List (Item R E))) where
  unfoldable pub get : String → MockRouter R E B → MockRouter R E B
  unfolding register
  get text router = register url iter_response "GET" text router

  unfoldable pub post : String → MockRouter R E B → MockRouter R E B
  unfolding register
  post text router = register url iter_response "POST" text router

  unfoldable pub put : String → MockRouter R E B → MockRouter R E B
  unfolding register
  put text router = register url iter_response "PUT" text router

  unfoldable pub patch : String → MockRouter R E B → MockRouter R E B
  unfolding register
  patch text router = register url iter_response "PATCH" text router

  unfoldable pub delete : String → MockRouter R E B → MockRouter R E B
  unfolding register
  delete text router = register url iter_response "DELETE" text router

  unfoldable pub head : String → MockRouter R E B → MockRouter R E B
  unfolding register
  head text router = register url iter_response "HEAD" text router

  unfoldable pub options : String → MockRouter R E B → MockRouter R E B
  unfolding register
  options text router = register url iter_response "OPTIONS" text router

-- `bool(self.calls)`
abbrev pub is_called : {B : Type 0} → List (Request B) → Bool
is_called [] = false
is_called (q ∷ calls) = true

-- `MockCallList.last`; none is its AssertionError.
abbrev pub last : {B : Type 0} → List (Request B) → Option (Request B)
last [] = none
last (q ∷ []) = some q
last (q ∷ r ∷ calls) = last (r ∷ calls)

-- `MockCallList.clear`
abbrev pub clear_calls : {B : Type 0} → List (Request B) → List (Request B)
clear_calls calls = []

-- An index of Python: from the front, or `before_end n` for `-(n + 1)`.
pub data Index : Type 0 where
  at before_end : ℕ → Index

abbrev pub nth : {B : Type 0} → ℕ → List (Request B) → Option (Request B)
nth n [] = none
nth zero (q ∷ calls) = some q
nth (suc n) (q ∷ calls) = nth n calls

-- `MockCallList.__getitem__`; none is its IndexError.
abbrev pub getitem : {B : Type 0} → Index → List (Request B) → Option (Request B)
getitem (at n) calls = nth n calls
getitem (before_end n) calls =
    if ltb n (length calls) then nth (length calls - suc n) calls else none

module _ {R E B : Type 0} where
  abbrev pub called : MockRoute R E B → Bool
  called route = is_called route.calls

  abbrev pub call_count : MockRoute R E B → ℕ
  call_count route = length route.calls

  abbrev pub called_once : MockRoute R E B → Bool
  called_once route = length route.calls == 1

  abbrev pub clear : MockRouter R E B → MockRouter R E B
  clear router = []

nth-last :
    {B : Type 0} (q : Request B) (calls : List (Request B))
    → nth (length calls) (q ∷ calls) ≡ last (q ∷ calls)
nth-last q [] = refl
nth-last q (r ∷ calls) = nth-last r calls

-- `calls[-1]` is `calls.last`.
getitem-last : {B : Type 0} (calls : List (Request B)) → getitem (before_end 0) calls ≡ last calls
getitem-last [] = refl
getitem-last (q ∷ calls) =
    let enough : ltb 0 (suc (length calls)) ≡ true = ground arith in
    let index : suc (length calls) - 1 ≡ length calls = omega arith in
    rw (enough, index) (nth-last q calls)
