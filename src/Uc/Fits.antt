-- ===== src/Uc/Fits.antt =====
-- apps/uc/src/novon/uc/api/routes.py, update_user: what a validated payload can change.
use mathlib.Core.Path.{subst}
use platform_backend.Prelude.{
  String, ◌≡◌, refl, sym, ◌∙◌, ◌≢◌, ◌⊎◌, inl, inr, arith, true, false, none, some, string_eq,
  eq_iff, Option-cases, ne_of_beq, none-ne-some,
}
use platform_backend.Dict.{Dict, keys, get}
use platform_backend.Dict.Laws.{IsDistinct}
use platform_backend.Core.Typehints.{Annotation}
use platform_backend.Core.Typehints.Laws.{admits_none}
use platform_backend.Core.ModelUtils.{Value, null, str, time, is_null, value_eq}
use platform_backend.Core.ModelUtils.Laws.{IsModel, is_nullable, keep}
use platform_backend.Core.ModelUtils.Conforms.{conforms, IsDumped}
use platform_backend.UcApi.{
  UserField, field_name, user_response_fields, user_update_fields, str_type, or_none,
}

pub user_response-IsModel : IsModel user_response_fields
user_response-IsModel = (tt, (tt, (tt, (tt, (tt, (tt, tt))))))

pub user_response-IsDistinct : IsDistinct (keys user_response_fields)
unfolding keys
user_response-IsDistinct = (refl, (refl, (refl, (refl, (refl, (refl, tt))))))

-- A field of `UserUpdate` is one of three, and holds a text or null.
update_field :
    (key : String) (a : Annotation)
    → get key user_update_fields ≡ some a
    → (a ≡ or_none str_type) × ((key ≡ "username") ⊎ (key ≡ "email") ⊎ (key ≡ "status"))
unfolding get
update_field key a h =
    ground (arith, eq_iff "username" key, eq_iff "email" key, eq_iff "status" key)

text_of_or_none :
    (v : Value)
    → conforms (or_none str_type) v ≡ true
    → is_null v ≡ false
    → conforms str_type v ≡ true
unfolding conforms
text_of_or_none null c n = cc
text_of_or_none (str s) c n = refl
text_of_or_none (time t) c n = c

-- What the code relies on in a computed update: it never names `id`, and each value that it names
-- fits the stored model.
pub record FitsUpdate (update : Dict String Value) : Type 0 where
  pub no_id : get "id" update ≡ none
  pub typed :
      (f : UserField) (v : Value)
      → get (field_name f) update ≡ some v
      → (a : Annotation) × (get (field_name f) user_response_fields ≡ some a)
        × (conforms a v ≡ true)

module _ (dumped update : Dict String Value) (valid : IsDumped user_update_fields dumped)
    (same : (key : String)
      → get key update ≡ keep (is_nullable key user_response_fields) (get key dumped)) where
  kept_text :
      (key : String) (v : Value)
      → is_nullable key user_response_fields ≡ false
      → get key update ≡ some v
      → ((key ≡ "username") ⊎ (key ≡ "email") ⊎ (key ≡ "status")) × (conforms str_type v ≡ true)
  kept_text key v required h =
      let (given, filled) = kept_given in
      let (a, declared, fits) = valid.fits key v given in
      let (is_text, name) = update_field key a declared in
      (name, text_of_or_none v (subst (λ t. conforms t v ≡ true) is_text fits) filled)
    where
      kept_given : (get key dumped ≡ some v) × (is_null v ≡ false)
      kept_given = ground (arith, same key)

  not_named :
      (key : String)
      → is_nullable key user_response_fields ≡ false
      → key ≢ "username"
      → key ≢ "email"
      → key ≢ "status"
      → get key update ≡ none
  not_named key required h i j = elim (Option-cases (get key update)) [
    | inl missing ↦ missing
    | inr (v, given) ↦ elim (kept_text key v required given).0 [
      | inl p ↦ absurd (h p)
      | inr (inl p) ↦ absurd (i p)
      | inr (inr p) ↦ absurd (j p)
    ]
  ]

  update-typed :
      (f : UserField) (v : Value)
      → get (field_name f) update ≡ some v
      → (a : Annotation) × (get (field_name f) user_response_fields ≡ some a)
        × (conforms a v ≡ true)
  unfolding is_nullable admits_none get
  update-typed UserField.username v h = (str_type, refl, (kept_text "username" v refl h).1)
  update-typed UserField.email v h = (str_type, refl, (kept_text "email" v refl h).1)
  update-typed UserField.status v h = (str_type, refl, (kept_text "status" v refl h).1)
  update-typed f v h = absurd (
      none-ne-some (
        sym (
          not_named (field_name f) refl (ne_of_beq _ _ refl) (ne_of_beq _ _ refl)
            (ne_of_beq _ _ refl))
        ∙ h))

  pub update-FitsUpdate : FitsUpdate update
  unfolding is_nullable admits_none get
  update-FitsUpdate = record {
    no_id = not_named "id" refl (ne_of_beq _ _ refl) (ne_of_beq _ _ refl) (ne_of_beq _ _ refl);
    typed = update-typed;
  }
