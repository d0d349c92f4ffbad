-- ===== src/Core/Feign/Quote/Laws.antt =====
-- What quoting a path parameter keeps and what it lets through.
use Prim.Native.Char.{char}
use mathlib.Core.List.{append-nil}
use platform_backend.Prelude.{
  ℕ, zero, suc, ◌+◌, ◌*◌, ◌/◌, ◌%◌, ◌≤◌, ◌<◌, String, Char, code, Bool, true, false, ◌||◌, ◌&&◌,
  List, [], ◌∷◌, ◌++◌, ◌==◌, nat_eq, nat_beq_iff, ◌≡◌, refl, sym, ap, ◌∙◌, arith, Bool-cases,
  and_left, and_right, inl, inr, All,
}
use platform_backend.Core.Feign.Quote.{
  is_always_safe, utf8, hex_digit, escape_bytes, quote, is_hex, hex_value, unquote_bytes, decode,
  unquote, code_points,
}

code-lt : (c : Char) → code c < 1114112
code-lt (char n p) = ground arith

decode-utf8 : (n : ℕ) (bs : List ℕ) → decode 0 0 (utf8 n ++ bs) ≡ n ∷ decode 0 0 bs
unfolding decode utf8
decode-utf8 n bs = ground arith

-- A test of the numbers from `start` on, as many as `many`.
abbrev each_from : (many start : ℕ) → (ℕ → Bool) → Bool
each_from zero start test = true
each_from (suc many) start test = test start && each_from many (start + 1) test

each_from_reaches :
    (many start : ℕ) (test : ℕ → Bool) (n : ℕ)
    → each_from many start test ≡ true
    → start ≤ n
    → n < start + many
    → test n ≡ true
each_from_reaches zero start test n passed low high = absurd (omega arith)
each_from_reaches (suc many) start test n passed low high = elim (Bool-cases (start == n)) [
  | inl same ↦ ap test (sym ((nat_beq_iff start n).0 same)) ∙ and_left _ _ passed
  | inr other ↦
      each_from_reaches many (start + 1) test n (and_right _ _ passed) (ground arith) (omega arith)
]

hex_table :
    each_from 16 0 (λ n. is_hex (code (hex_digit n)) && (hex_value (code (hex_digit n)) == n))
    ≡ true
hex_table = refl

hex_digit-IsHex :
    (n : ℕ) → n < 16 → (is_hex (code (hex_digit n)) ≡ true) × (hex_value (code (hex_digit n)) ≡ n)
hex_digit-IsHex n lt =
    let found =
      each_from_reaches 16 0
        (λ k. is_hex (code (hex_digit k)) && (hex_value (code (hex_digit k)) == k)) n hex_table
        (omega arith) lt in
    (and_left _ _ found, (nat_beq_iff _ n).0 (and_right _ _ found))

-- A character other than the percent sign is read by itself.
unquote_plain :
    (c : Char) (s : String)
    → (code c == b'%') ≡ false
    → unquote_bytes (String.◌∷◌ c s) ≡ utf8 (code c) ++ unquote_bytes s
unfolding unquote_bytes
unquote_plain c String.[] other = sym (append-nil (utf8 (code c)))
unquote_plain c (String.◌∷◌ d String.[]) other = refl
unquote_plain c (String.◌∷◌ d (String.◌∷◌ e s)) other = rw other refl

unquote-escape_bytes :
    (bs : List ℕ) (rest : String)
    → All (λ b. b < 256) bs
    → unquote_bytes (escape_bytes bs rest) ≡ bs ++ unquote_bytes rest
unfolding unquote_bytes escape_bytes
unquote-escape_bytes [] rest h = refl
unquote-escape_bytes (b ∷ bs) rest (lt, h) =
    let (high, high_value) = hex_digit-IsHex (b / 16) (omega arith) in
    let (low, low_value) = hex_digit-IsHex (b % 16) (omega arith) in
    let back : b / 16 * 16 + b % 16 ≡ b = omega arith in
    rw (high, low, high_value, low_value, back, unquote-escape_bytes bs rest h) refl

utf8-lt : (n : ℕ) → n < 1114112 → All (λ b. b < 256) (utf8 n)
unfolding utf8
utf8-lt n h = ground arith

safe-ne-percent : (n : ℕ) → is_always_safe n ≡ true → (n == b'%') ≡ false
unfolding is_always_safe
safe-ne-percent n h = ground arith

unquote_bytes-quote :
    (c : Char) (s : String)
    → unquote_bytes (quote (String.◌∷◌ c s)) ≡ utf8 (code c) ++ unquote_bytes (quote s)
unfolding quote
unquote_bytes-quote c s = elim (Bool-cases (is_always_safe (code c))) [
  | inl safe ↦ rw safe (unquote_plain c (quote s) (safe-ne-percent (code c) safe))
  | inr other ↦
      rw other (unquote-escape_bytes (utf8 (code c)) (quote s) (utf8-lt (code c) (code-lt c)))
]

-- Quoting loses nothing: whatever the text, its quoted form is read back as the same code points.
pub unquote-quote : (s : String) → unquote (quote s) ≡ code_points s
unfolding unquote
unquote-quote String.[] = unfold quote unquote_bytes decode in refl
unquote-quote (String.◌∷◌ c s) =
    ap (decode 0 0) (unquote_bytes-quote c s)
    ∙ decode-utf8 (code c) (unquote_bytes (quote s))
    ∙ ap (λ cs. code c ∷ cs) (unquote-quote s)

-- A character that a quoted text can hold.
abbrev pub is_quoted_char : ℕ → Bool
is_quoted_char n = is_always_safe n || n == b'%'

abbrev pub AllQuoted : String → Type 0
AllQuoted String.[] = Unit
AllQuoted (String.◌∷◌ c s) = (is_quoted_char (code c) ≡ true) × AllQuoted s

hex_digit_table : each_from 16 0 (λ n. is_always_safe (code (hex_digit n))) ≡ true
unfolding is_always_safe
hex_digit_table = refl

hex_digit-quoted : (n : ℕ) → n < 16 → is_quoted_char (code (hex_digit n)) ≡ true
hex_digit-quoted n lt =
    rw
      (each_from_reaches 16 0 (λ k. is_always_safe (code (hex_digit k))) n hex_digit_table
        (omega arith) lt)
      refl

AllQuoted-escape_bytes :
    (bs : List ℕ) (rest : String)
    → All (λ b. b < 256) bs
    → AllQuoted rest
    → AllQuoted (escape_bytes bs rest)
unfolding escape_bytes is_always_safe
AllQuoted-escape_bytes [] rest h q = q
AllQuoted-escape_bytes (b ∷ bs) rest (lt, h) q = (
  refl,
  (
    hex_digit-quoted (b / 16) (omega arith),
    (hex_digit-quoted (b % 16) (omega arith), AllQuoted-escape_bytes bs rest h q),
  ),
)

pub quote-AllQuoted : (s : String) → AllQuoted (quote s)
unfolding quote
quote-AllQuoted String.[] = tt
quote-AllQuoted (String.◌∷◌ c s) = elim (Bool-cases (is_always_safe (code c))) [
  | inl safe ↦ rw safe (rw safe refl, quote-AllQuoted s)
  | inr other ↦ rw other (
      AllQuoted-escape_bytes (utf8 (code c)) (quote s) (utf8-lt (code c) (code-lt c))
        (quote-AllQuoted s))
]
