-- ===== src/Core/Feign/Quote.antt =====
-- packages/core/src/novon/core/http/feign.py: `quote(value, safe="")` of `urllib.parse`, which writes
-- every byte of the text's UTF-8 as %XX unless it is a letter, a digit or one of `_.-~`.
-- `unquote` is the reading of a server: it undoes %XX, and reads the bytes as UTF-8.
pub mod Laws
use Prim.Native.String
use platform_backend.Prelude.{
  ℕ, zero, suc, ◌+◌, ◌-◌, ◌*◌, ◌/◌, ◌%◌, String, ◌&◌, Char, code, Bool, true, false, ◌||◌, ◌&&◌,
  List, [], ◌∷◌, ◌++◌, leb, ltb, ◌==◌, nat_eq, if◌then◌else◌,
}

-- `_ALWAYS_SAFE`
unfoldable pub is_always_safe : ℕ → Bool
is_always_safe n =
    (leb b'A' n && leb n b'Z')
    || ((leb b'a' n && leb n b'z') || (leb b'0' n && leb n b'9'))
    || (n == b'_' || (n == b'.' || (n == b'-' || n == b'~')))

-- The bytes of a code point.
unfoldable pub utf8 : ℕ → List ℕ
utf8 n =
    if ltb n 128
    then n ∷ []
    else if ltb n 2048
    then (192 + n / 64) ∷ (128 + n % 64) ∷ []
    else if ltb n 65536
    then (224 + n / 4096) ∷ (128 + n / 64 % 64) ∷ (128 + n % 64) ∷ []
    else (240 + n / 262144) ∷ (128 + n / 4096 % 64) ∷ (128 + n / 64 % 64) ∷ (128 + n % 64) ∷ []

-- A hexadecimal digit; the last case is the one of 15.
abbrev pub hex_digit : ℕ → Char
hex_digit n = String.char_at "0123456789ABCDEF" n

unfoldable pub escape_bytes : List ℕ → String → String
escape_bytes [] rest = rest
escape_bytes (b ∷ bs) rest =
    String.◌∷◌ "%"
      (String.◌∷◌ (hex_digit (b / 16)) (String.◌∷◌ (hex_digit (b % 16)) (escape_bytes bs rest)))

unfoldable pub quote : String → String
unfolding is_always_safe utf8 escape_bytes
quote String.[] = String.[]
quote (String.◌∷◌ c s) =
    if is_always_safe (code c)
    then String.◌∷◌ c (quote s)
    else escape_bytes (utf8 (code c)) (quote s)

-- A hexadecimal digit of either case, and its value.
abbrev pub is_hex : ℕ → Bool
is_hex n = (leb b'0' n && leb n b'9') || ((leb b'A' n && leb n b'F') || (leb b'a' n && leb n b'f'))

abbrev pub hex_value : ℕ → ℕ
hex_value n = if leb n b'9' then n - b'0' else if leb n b'F' then n - 55 else n - 87

-- Each %XX is a byte, and any other character its UTF-8.
unfoldable pub unquote_bytes : String → List ℕ
unfolding utf8
unquote_bytes String.[] = []
unquote_bytes (String.◌∷◌ c String.[]) = utf8 (code c)
unquote_bytes (String.◌∷◌ c (String.◌∷◌ d String.[])) = utf8 (code c) ++ utf8 (code d)
unquote_bytes (String.◌∷◌ c (String.◌∷◌ d (String.◌∷◌ e s))) =
    let escaped = (hex_value (code d) * 16 + hex_value (code e)) ∷ unquote_bytes s in
    let plain = utf8 (code c) ++ unquote_bytes (String.◌∷◌ d (String.◌∷◌ e s)) in
    if code c == b'%' && (is_hex (code d) && is_hex (code e)) then escaped else plain

-- The code points of bytes: `more` bytes of a code point are to come, and `acc` is what came.
unfoldable pub decode : ℕ → ℕ → List ℕ → List ℕ
decode more acc [] = []
decode zero acc (b ∷ bs) = elim (ltb b 128) [
  | true ↦ b ∷ decode zero 0 bs
  | false ↦ elim (ltb b 224) [
    | true ↦ decode 1 (b - 192) bs
    | false ↦ elim (ltb b 240) [ true ↦ decode 2 (b - 224) bs | false ↦ decode 3 (b - 240) bs ]
  ]
]
decode (suc zero) acc (b ∷ bs) = (acc * 64 + (b - 128)) ∷ decode zero 0 bs
decode (suc (suc more)) acc (b ∷ bs) = decode (suc more) (acc * 64 + (b - 128)) bs

-- `urllib.parse.unquote`, as code points.
unfoldable pub unquote : String → List ℕ
unfolding unquote_bytes decode
unquote s = decode 0 0 (unquote_bytes s)

abbrev pub code_points : String → List ℕ
code_points String.[] = []
code_points (String.◌∷◌ first rest) = code first ∷ code_points rest
