-- ===== src/Core/Feign/Call/Paths.antt =====
-- packages/core/src/novon/core/http/feign.py: the path of a call, whatever its arguments are.
use text.Mathlib.TextLemmas.{nil-append, cons-append}
use platform_backend.Prelude.{
  ℕ, suc, ◌+◌, String, ◌&◌, code, Bool, true, false, ◌&&◌, Option, none, some, List, [], ◌∷◌, ◌==◌,
  nat_eq, nat_beq_iff, ◌≢◌, string_eq, arith, if◌then◌else◌, is_distinct, all, ◌≡◌, refl, sym, ap,
  ◌∙◌, Bool-cases, inl, inr, and_left, and_right,
}
use platform_backend.Dict.{Dict, get}
use platform_backend.Core.Typehints.{Annotation}
use platform_backend.Core.Feign.{
  EndpointSpec, built, build_spec, Taken, taken, key_error, none_error, take_path,
}
use platform_backend.Core.Feign.PathArguments.{is_given, is_taken, is_taken-take_path}
use platform_backend.Core.Feign.Quote.Laws.{is_quoted_char, AllQuoted, quote-AllQuoted}
use platform_backend.Core.Feign.Template.{
  Segment, literal, placeholder, print, names, fill, IsTemplate,
}
use platform_backend.Core.Feign.Call.{
  Argument, is_none_argument, quoted, CallError, with_body, body_entry, with_taken, prepared,
  failed, prepare,
}
use platform_backend.Core.Feign.Call.Arguments.{path_value, take_path-Takes}
use platform_backend.Core.Feign.Call.Sends.{path_part, path_names, prepare-fill}

-- How often a character stands in a text.
abbrev pub count : ℕ → String → ℕ
count n String.[] = 0
count n (String.◌∷◌ c s) = if code c == n then suc (count n s) else count n s

count-append : (n : ℕ) (s t : String) → count n (s & t) ≡ count n s + count n t
count-append n String.[] t = rw nil-append (omega arith)
count-append n (String.◌∷◌ c s) t = rw cons-append (ground (arith, count-append n s t))

count_of_quoted : (n : ℕ) (s : String) → is_quoted_char n ≡ false → AllQuoted s → count n s ≡ 0
count_of_quoted n String.[] h q = refl
count_of_quoted n (String.◌∷◌ c s) h (good, q) = elim (Bool-cases (code c == n)) [
  | inl same ↦ cc (ap is_quoted_char ((nat_beq_iff (code c) n).0 same), good, h)
  | inr other ↦ rw other (count_of_quoted n s h q)
]

failed-ne-prepared :
    {J : Type 0} {e : CallError} {path : String} {json : Option J} {params : Option (Dict String J)}
    → failed e ≢ prepared path json params
failed-ne-prepared h = cc

not_taken :
    {J : Type 0} (spec : EndpointSpec) (t : Taken (Argument J)) {path : String} {json : Option J}
    {params : Option (Dict String J)}
    → is_taken t ≡ false
    → with_taken spec t ≢ prepared path json params
not_taken spec (taken path_vars left) h = cc
not_taken spec (key_error name) h = failed-ne-prepared
not_taken spec (none_error name) h = failed-ne-prepared

path_of_body :
    {J : Type 0} (spec : EndpointSpec) (p : String) (left : Dict String (Argument J))
    (entry : Option (String × Option (Argument J))) {path : String} {json : Option J}
    {params : Option (Dict String J)}
    → with_body spec p left entry ≡ prepared path json params
    → path ≡ p
path_of_body spec p left none h = cc
path_of_body spec p left (some (name, none)) h = absurd (failed-ne-prepared h)
path_of_body spec p left (some (name, some body)) h = cc

-- A path with other values differs only in characters that quoting leaves.
count-fill :
    (n : ℕ) (value : String → String) (segments : List Segment)
    → is_quoted_char n ≡ false
    → ((name : String) → AllQuoted (value name))
    → count n (fill value segments) ≡ count n (fill (λ name. "") segments)
count-fill n value [] h q = refl
count-fill n value (literal s ∷ segments) h q =
    rw (count-append, count-append, count-fill n value segments h q) refl
count-fill n value (placeholder name ∷ segments) h q =
    rw (nil-append, count-append)
      (omega (arith, count_of_quoted n (value name) h (q name), count-fill n value segments h q))

path_part-AllQuoted :
    {J : Type 0} (arguments : Dict String (Argument J)) (name : String)
    → AllQuoted (path_part arguments name)
path_part-AllQuoted arguments name = of_value (get name arguments)
  where
    of_value : {J : Type 0} (o : Option (Argument J)) → AllQuoted (path_value quoted o)
    of_value none = tt
    of_value (some argument) = quote-AllQuoted argument.text

module _ {J : Type 0} (is_model : Annotation → Bool) (method : String) (segments : List Segment)
    (parameters : List String) (hints : Dict String Annotation) (spec : EndpointSpec)
    (template : IsTemplate segments)
    (accepted : build_spec is_model method (print segments) parameters (some hints) ≡ built spec)
    (arguments : Dict String (Argument J)) where
  given_names :
      is_taken (take_path is_none_argument quoted spec.path_params arguments []) ≡ true
      → (is_distinct (names segments)
          && all (λ n. is_given is_none_argument quoted (get n arguments)) (names segments))
        ≡ true
  given_names good =
      sym (
        ap
          (λ ns. is_distinct ns && all (λ n. is_given is_none_argument quoted (get n arguments)) ns)
          (path_names is_model method segments parameters hints spec template accepted arguments))
      ∙ sym (is_taken-take_path is_none_argument quoted spec.path_params arguments [])
      ∙ good

  path_filled :
      (path : String) (json : Option J) (params : Option (Dict String J))
      → prepare spec arguments ≡ prepared path json params
      → path ≡ fill (path_part arguments) segments
  unfolding prepare
  path_filled path json params h =
      elim (Bool-cases
        (is_taken (take_path is_none_argument quoted spec.path_params arguments []))) [
          | inr bad ↦ absurd (not_taken spec _ {path = path} {json = json} {params = params} bad h)
          | inl good ↦
              let t =
                take_path-Takes is_none_argument quoted (names segments) arguments []
                  (and_left _ _ (given_names good)) (and_right _ _ (given_names good)) in
              path_of_body spec (fill (path_part arguments) segments) t.left
                (body_entry spec.body_param t.left)
                (sym (
                    prepare-fill is_model method segments parameters hints spec template accepted
                      arguments t)
                  ∙ h)
        ]

  -- For an accepted endpoint whose template has plain literals and words as placeholders, and
  -- whatever the arguments: a character that is no letter, no digit and none of `_.-~%` stands in
  -- the path of a prepared call as often as in the template with its placeholders left out, so no
  -- argument brings a slash, a question mark or a number sign into the path.
  pub prepare_path_delimiters :
      (n : ℕ) (path : String) (json : Option J) (params : Option (Dict String J))
      → is_quoted_char n ≡ false
      → prepare spec arguments ≡ prepared path json params
      → count n path ≡ count n (fill (λ name. "") segments)
  prepare_path_delimiters n path json params h p =
      ap (count n) (path_filled path json params p)
      ∙ count-fill n (path_part arguments) segments h (path_part-AllQuoted arguments)
