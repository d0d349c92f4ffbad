-- ===== src/Core/Feign/Template.antt =====
-- Path templates as lists of segments: what `findall` finds in one, and what `format_map` makes of it.
use text.Mathlib.TextLemmas.{nil-append, cons-append, append-nil, append_assoc}
use platform_backend.Prelude.{
  String, ◌&◌, Char, code, Bool, true, false, not, ◌&&◌, none, some, List, [], ◌∷◌, ◌==◌, nat_eq,
  string_eq, is_empty, ◌≡◌, refl, ap, ◌∙◌, arith, All,
}
use platform_backend.Dict.{Dict, get}
use platform_backend.Core.Feign.{is_word_char, find_all}
use platform_backend.Core.Feign.Format.{
  formatted, in_text, in_field, push, is_positional, is_special, close, continue, format_from,
  format_map,
}

pub data Segment : Type 0 where
  literal : String → Segment
  placeholder : String → Segment

abbrev pub print : List Segment → String
print [] = ""
print (literal s ∷ segments) = s & print segments
print (placeholder name ∷ segments) = String.◌∷◌ "{" (name & String.◌∷◌ "}" (print segments))

abbrev pub names : List Segment → List String
names [] = []
names (literal s ∷ segments) = names segments
names (placeholder name ∷ segments) = name ∷ names segments

-- The path with a value for each name.
abbrev pub fill : (String → String) → List Segment → String
fill value [] = ""
fill value (literal s ∷ segments) = s & fill value segments
fill value (placeholder name ∷ segments) = value name & fill value segments

abbrev pub AllChars : (Char → Bool) → String → Type 0
AllChars p String.[] = Unit
AllChars p (String.◌∷◌ c s) = (p c ≡ true) × AllChars p s

abbrev pub is_plain_char : Char → Bool
is_plain_char c = not (code c == b'{') && not (code c == b'}')

-- Literals hold no brace, and names are words that do not read as numbers.
abbrev pub IsTemplate : List Segment → Type 0
IsTemplate [] = Unit
IsTemplate (literal s ∷ segments) = AllChars is_plain_char s × IsTemplate segments
IsTemplate (placeholder name ∷ segments) =
    AllChars is_word_char name
    × (is_empty name ≡ false)
    × (is_positional name ≡ false)
    × IsTemplate segments

push_append : (out : String) (c : Char) (s : String) → push out c & s ≡ out & String.◌∷◌ c s
push_append out c s =
    append_assoc out (String.◌∷◌ c String.[]) s
    ∙ ap (λ t. out & t) (cons-append c String.[] s ∙ ap (String.◌∷◌ c) (nil-append s))

find_all-literal :
    (s rest : String) → AllChars is_plain_char s → find_all none (s & rest) ≡ find_all none rest
unfolding find_all
find_all-literal String.[] rest h = rw nil-append refl
find_all-literal (String.◌∷◌ c s) rest (plain, h) =
    rw cons-append (ground (arith, find_all-literal s rest h))

word_facts :
    (c : Char)
    → is_word_char c ≡ true
    → ((code c == b'{') ≡ false) × ((code c == b'}') ≡ false) × (is_special (code c) ≡ false)
unfolding is_word_char
word_facts c h = ground arith

plain_facts :
    (c : Char) → is_plain_char c ≡ true → ((code c == b'{') ≡ false) × ((code c == b'}') ≡ false)
plain_facts c h = ground arith

find_all-word :
    (word name rest : String)
    → AllChars is_word_char name
    → is_empty (word & name) ≡ false
    → find_all (some word) (name & String.◌∷◌ "}" rest) ≡ (word & name) ∷ find_all none rest
unfolding find_all
find_all-word word String.[] rest h filled =
    let some_word : is_empty word ≡ false = rw (append-nil word) at filled in
    rw (nil-append, append-nil, some_word) refl
find_all-word word (String.◌∷◌ c name) rest (good, h) filled =
    let (no_open, no_close, _) = word_facts c good in
    rw
      (
        cons-append,
        no_close,
        no_open,
        good,
        find_all-word (push word c) name rest h (rw (push_append word c name) filled),
        push_append word c name,
      )
      refl

module _ (path_vars : Dict String String) where
  format-literal :
      (s rest out : String)
      → AllChars is_plain_char s
      → format_from path_vars in_text out (s & rest) ≡ format_from path_vars in_text (out & s) rest
  unfolding format_from
  format-literal String.[] rest out h = rw (nil-append, append-nil) refl
  format-literal (String.◌∷◌ c s) rest out (plain, h) =
      let (no_open, no_close) = plain_facts c plain in
      rw (cons-append, no_open, no_close, format-literal s rest (push out c) h, push_append out c s)
        refl

  format-field :
      (name more rest out : String)
      → AllChars is_word_char more
      → format_from path_vars (in_field name) out (more & String.◌∷◌ "}" rest)
        ≡ continue path_vars
            (close path_vars (name & more) out)
            (λ out'. format_from path_vars in_text out' rest)
  unfolding format_from
  format-field name String.[] rest out h = rw (nil-append, append-nil) refl
  format-field name (String.◌∷◌ c more) rest out (good, h) =
      let (no_open, no_close, ordinary) = word_facts c good in
      rw
        (
          cons-append,
          no_close,
          no_open,
          ordinary,
          format-field (push name c) more rest out h,
          push_append name c more,
        )
        refl

  format-placeholder :
      (name value rest out : String)
      → AllChars is_word_char name
      → is_empty name ≡ false
      → is_positional name ≡ false
      → get name path_vars ≡ some value
      → format_from path_vars in_text out (String.◌∷◌ "{" (name & String.◌∷◌ "}" rest))
        ≡ format_from path_vars in_text (out & value) rest
  unfolding format_from
  format-placeholder String.[] value rest out h filled name_like given = cc
  format-placeholder (String.◌∷◌ c name) value rest out (good, h) filled name_like given =
      let (no_open, no_close, ordinary) = word_facts c good in
      rw
        (
          cons-append,
          no_open,
          no_close,
          ordinary,
          format-field (push "" c) name rest out h,
          push_append "" c name,
          nil-append,
          name_like,
          given,
        )
        refl

  format-print :
      (value : String → String) (segments : List Segment) (out : String)
      → IsTemplate segments
      → All (λ name. get name path_vars ≡ some (value name)) (names segments)
      → format_from path_vars in_text out (print segments) ≡ formatted (out & fill value segments)
  format-print value [] out h given = unfold format_from in rw append-nil refl
  format-print value (literal s ∷ segments) out (plain, h) given =
      rw
        (
          format-literal s (print segments) out plain,
          format-print value segments (out & s) h given,
          append_assoc,
        )
        refl
  format-print value (placeholder name ∷ segments) out (word, filled, name_like, h) (here, given) =
      rw
        (
          format-placeholder name (value name) (print segments) out word filled name_like here,
          format-print value segments (out & value name) h given,
          append_assoc,
        )
        refl

  -- A template whose names all have values is filled with them.
  pub format_map-print :
      (value : String → String) (segments : List Segment)
      → IsTemplate segments
      → All (λ name. get name path_vars ≡ some (value name)) (names segments)
      → format_map path_vars (print segments) ≡ formatted (fill value segments)
  unfolding format_map
  format_map-print value segments h given =
      format-print value segments "" h given ∙ ap formatted (nil-append (fill value segments))

find_all-placeholder :
    (name rest : String)
    → AllChars is_word_char name
    → is_empty name ≡ false
    → find_all none (String.◌∷◌ "{" (name & String.◌∷◌ "}" rest)) ≡ name ∷ find_all none rest
unfolding find_all
find_all-placeholder name rest word filled =
    rw (find_all-word "" name rest word (rw nil-append filled), nil-append) refl

-- The placeholders found in a template are its names, in order.
pub find_all-print :
    (segments : List Segment)
    → IsTemplate segments
    → find_all none (print segments) ≡ names segments
find_all-print [] h = unfold find_all in refl
find_all-print (literal s ∷ segments) (plain, h) =
    find_all-literal s (print segments) plain ∙ find_all-print segments h
find_all-print (placeholder name ∷ segments) (word, filled, name_like, h) =
    find_all-placeholder name (print segments) word filled
    ∙ ap (λ found. name ∷ found) (find_all-print segments h)
