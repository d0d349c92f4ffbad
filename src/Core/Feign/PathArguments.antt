-- ===== src/Core/Feign/PathArguments.antt =====
-- packages/core/src/novon/core/http/feign.py: which calls the path parameters of an endpoint allow.
use platform_backend.Prelude.{
  String, ◌≡◌, refl, Bool, true, false, not, ◌&&◌, Option, none, some, List, [], ◌∷◌, string_eq,
  eq_iff, arith, contains, is_distinct, all, Option-cases, Bool-cases, inl, inr,
}
use platform_backend.Dict.{Dict, get, put, pop}
use platform_backend.Dict.Laws.{get-pop}
use platform_backend.Core.Feign.{Taken, taken, key_error, none_error, take_path}

abbrev pub is_taken : {V : Type 0} → Taken V → Bool
is_taken (taken path_vars arguments) = true
is_taken (key_error name) = false
is_taken (none_error name) = false

module _ {V : Type 0} (is_none : V → Bool) (quoted : V → String) where
  abbrev pub is_given : Option V → Bool
  is_given none = false
  is_given (some value) = not (is_none value)

  pub all_given_pop :
      (name : String) (names : List String) (arguments : Dict String V)
      → all (λ n. is_given (get n (pop name arguments))) names
        ≡ (not (contains name names) && all (λ n. is_given (get n arguments)) names)
  all_given_pop name [] arguments = refl
  all_given_pop name (n ∷ names) arguments =
      rw (get-pop name n arguments, all_given_pop name names arguments)
        (ground (arith, eq_iff name n))

  -- A call gets through its path parameters exactly if they have different names and each has an
  -- argument that is not None. In particular an endpoint whose path template has a placeholder twice
  -- fails on every call, whatever its arguments.
  pub is_taken-take_path :
      (names : List String) (arguments : Dict String V) (path_vars : Dict String String)
      → is_taken (take_path is_none quoted names arguments path_vars)
        ≡ (is_distinct names && all (λ n. is_given (get n arguments)) names)
  unfolding take_path
  is_taken-take_path [] arguments path_vars = refl
  is_taken-take_path (name ∷ names) arguments path_vars = elim (Option-cases (get name arguments)) [
    | inl missing ↦ rw missing (ground arith)
    | inr (value, given) ↦ elim (Bool-cases (is_none value)) [
      | inl unset ↦ rw (given, unset) (ground arith)
      | inr filled ↦
          rw
            (
              given,
              filled,
              is_taken-take_path names (pop name arguments) (put name (quoted value) path_vars),
              all_given_pop name names arguments,
            )
            (ground arith)
    ]
  ]
