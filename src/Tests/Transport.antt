-- ===== src/Tests/Transport.antt =====
-- A transport that finds what a request is for by the request's own path.
use text.Mathlib.TextEquality.{Char-path}
use text.Mathlib.TextLemmas.{append_cancel_left}
use platform_backend.Prelude.{
  ℕ, String, ◌&◌, Option, none, some, List, [], ◌∷◌, ◌==◌, string_eq, eq_iff, if◌then◌else◌, ◌≡◌,
  refl, sym, ap, ◌∙◌, Bool-cases, inl, inr,
}
use platform_backend.Dict.{Dict, get}
use platform_backend.Core.Feign.Quote.{quote, unquote, code_points}
use platform_backend.Core.Feign.Quote.Laws.{unquote-quote}

cons_parts : {m n : ℕ} {s t : List ℕ} → m ∷ s ≡ n ∷ t → (m ≡ n) × (s ≡ t)
cons_parts h = (cc, cc)

code_points_inj : (s t : String) → code_points s ≡ code_points t → s ≡ t
code_points_inj String.[] String.[] h = refl
code_points_inj String.[] (String.◌∷◌ c t) h = cc
code_points_inj (String.◌∷◌ c s) String.[] h = cc
code_points_inj (String.◌∷◌ c s) (String.◌∷◌ d t) h =
    let (same, rest) = cons_parts h in
    ap (λ a. String.◌∷◌ a s) (Char-path c d same) ∙ ap (String.◌∷◌ d) (code_points_inj s t rest)

quote_inj : (base s t : String) → base & quote s ≡ base & quote t → s ≡ t
quote_inj base s t h =
    code_points_inj s t
      (sym (unquote-quote s) ∙ ap unquote (append_cancel_left base _ _ h) ∙ unquote-quote t)

quote_eq : (base s t : String) → ((base & quote s) == (base & quote t)) ≡ (s == t)
quote_eq base s t = elim (Bool-cases (s == t)) [
  | inl same ↦
      (eq_iff (base & quote s) (base & quote t)).1 (ap (λ x. base & quote x) ((eq_iff s t).0 same))
      ∙ sym same
  | inr other ↦ elim (Bool-cases ((base & quote s) == (base & quote t))) [
    | inl alike ↦ alike ∙ sym ((eq_iff s t).1 (quote_inj base s t ((eq_iff _ _).0 alike)))
    | inr apart ↦ apart ∙ sym other
  ]
]

-- The entry whose quoted key is the rest of the path.
abbrev pub seek : {V : Type 0} → String → String → Dict String V → Option V
seek base path [] = none
seek base path ((k, v) ∷ d) =
    let rest = seek base path d in if (base & quote k) == path then some v else rest

pub seek-get :
    {V : Type 0} (base id : String) (d : Dict String V) → seek base (base & quote id) d ≡ get id d
unfolding get
seek-get base id [] = refl
seek-get base id ((k, v) ∷ d) = rw (quote_eq base k id, seek-get base id d) refl
