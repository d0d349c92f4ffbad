-- ===== src/Core/Feign/Format.antt =====
-- packages/core/src/novon/core/http/feign.py: `path_template.format_map(path_vars)` of `str`.
-- A field is closed by the next brace. `conversion` is a field with a format, a conversion, an
-- attribute or an index, which are not followed further.
use platform_backend.Prelude.{
  ℕ, String, ◌&◌, Char, code, Bool, true, ◌||◌, ◌&&◌, Option, none, some, ◌==◌, leb, nat_eq,
  string_eq, if◌then◌else◌,
}
use platform_backend.Dict.{Dict, get}

pub data Formatted : Type 0 where
  formatted : String → Formatted
  key_error : String → Formatted
  value_error : Formatted
  conversion : Formatted

-- Where the reading of the template stands.
pub data Reading : Type 0 where
  in_text : Reading
  after_open : Reading
  after_close : Reading
  in_field : String → Reading

abbrev pub push : String → Char → String
push s c = s & String.◌∷◌ c String.[]

unfoldable pub all_digits : String → Bool
all_digits String.[] = true
all_digits (String.◌∷◌ c s) = (leb b'0' (code c) && leb (code c) b'9') && all_digits s

-- An empty or a numeric field asks for a positional argument, of which there is none.
unfoldable pub is_positional : String → Bool
unfolding all_digits
is_positional name = all_digits name

abbrev pub is_special : ℕ → Bool
is_special n = n == b':' || (n == b'!' || (n == b'.' || n == b'['))

module _ (path_vars : Dict String String) where
  -- The text so far with the value of a field, or the error of the field.
  abbrev pub with_value : String → String → Option String → Formatted
  with_value name out none = key_error name
  with_value name out (some value) = formatted (out & value)

  abbrev pub close : String → String → Formatted
  close name out =
      if is_positional name then value_error else with_value name out (get name path_vars)

  abbrev pub continue : Formatted → (String → Formatted) → Formatted
  continue (formatted out) rest = rest out
  continue (key_error name) rest = key_error name
  continue value_error rest = value_error
  continue conversion rest = conversion

  unfoldable pub format_from : Reading → String → String → Formatted
  unfolding is_positional
  format_from in_text out String.[] = formatted out
  format_from after_open out String.[] = value_error
  format_from after_close out String.[] = value_error
  format_from (in_field name) out String.[] = value_error
  format_from in_text out (String.◌∷◌ c s) =
      let opens = format_from after_open out s in
      let closes = format_from after_close out s in
      let plain = format_from in_text (push out c) s in
      if code c == b'{' then opens else if code c == b'}' then closes else plain
  format_from after_open out (String.◌∷◌ c s) =
      let brace = format_from in_text (push out c) s in
      let reads = format_from (in_field (push "" c)) out s in
      if code c == b'{'
      then brace
      else if code c == b'}'
      then value_error
      else if is_special (code c)
      then conversion
      else reads
  format_from after_close out (String.◌∷◌ c s) =
      let brace = format_from in_text (push out c) s in
      if code c == b'}' then brace else value_error
  format_from (in_field name) out (String.◌∷◌ c s) =
      let closed = continue (close name out) (λ out'. format_from in_text out' s) in
      let reads = format_from (in_field (push name c)) out s in
      if code c == b'}'
      then closed
      else if code c == b'{'
      then value_error
      else if is_special (code c)
      then conversion
      else reads

  unfoldable pub format_map : String → Formatted
  unfolding format_from
  format_map template = format_from in_text "" template
