-- ===== src/Uc/Rename.antt =====
-- What an update does: which fields it changes, how a rename moves the name, and when it answers 409.
use platform_backend.Prelude.{
  ℕ, String, ◌≡◌, ◌≢◌, ◌⊎◌, inl, inr, refl, sym, ◌∙◌, ap, Bool-cases, false, string_eq, ◌&&◌,
}
use platform_backend.Dict.{Dict, get, put}
use platform_backend.Dict.Laws.{get-put_self, get-put_ne}
use platform_backend.Core.ModelUtils.{Value, time, value_eq}
use platform_backend.Core.ModelUtils.Laws.{is_nullable}
use platform_backend.Core.ModelUtils.Conforms.{
  ModelCopy, IsDumped, overlay, given_text, overlay-keep,
}
use platform_backend.Core.Typehints.Laws.{admits_none}
use platform_backend.UcApi.{
  UserResponse, UserField, field_name, attr, user_update_fields, user_response_fields,
}
use platform_backend.Uc.{
  Store, Reply, ok, conflict, found, get_user, update_user, apply_update, or_null, is_rename,
  is_taken,
}
use platform_backend.Uc.Lookup.{get_user_iff, ok_inj}
use platform_backend.Uc.Update.{
  updated_user, update_user-stored, attr-updated_user, updated_at-updated_user,
}

pub required : (f : UserField) → is_nullable (field_name f) user_response_fields ≡ false
unfolding is_nullable admits_none get
required UserField.id = refl
required f = refl

get_user_of_same :
    (id : String) (s t : Store) → get id t.users ≡ get id s.users → get_user id t ≡ get_user id s
unfolding get_user
get_user_of_same id s t e = ap found e

module _ (pydantic : ModelCopy UserResponse UserField field_name attr) (user_id : String)
    (existing : UserResponse) (update : Dict String Value) (now : ℕ) (s : Store) where
  -- An update either changes nothing and answers 409, or stores the copy.
  pub apply_update_cases :
      (apply_update pydantic user_id existing update now s ≡ (conflict, s))
      ⊎ (((apply_update pydantic user_id existing update now s).0
            ≡ ok (updated_user pydantic existing update now))
          × ((apply_update pydantic user_id existing update now s).1.users
              ≡ put user_id (updated_user pydantic existing update now) s.users))
  unfolding apply_update
  apply_update_cases =
      elim (Bool-cases (
        is_rename (or_null (get "username" update)) existing
        && is_taken (get (or_null (get "username" update)) s.users_by_username) user_id)) [
          | inl stop ↦ inl (rw stop refl)
          | inr go ↦ inr (rw go (refl, refl))
        ]

  pub apply_update_ok :
      (updated : UserResponse)
      → (apply_update pydantic user_id existing update now s).0 ≡ ok updated
      → (updated_user pydantic existing update now ≡ updated)
        × ((apply_update pydantic user_id existing update now s).1.users
            ≡ put user_id updated s.users)
  apply_update_ok updated h = elim apply_update_cases [
    | inl stopped ↦ cc (ap (λ r. r.0) stopped, h)
    | inr (returned, users) ↦
        let same = ok_inj (sym returned ∙ h) in (same, users ∙ ap (λ u. put user_id u s.users) same)
  ]

module _ (pydantic : ModelCopy UserResponse UserField field_name attr) (user_id : String)
    (dumped : Dict String Value) (now : ℕ) (s : Store) where
  abbrev patched : Reply UserResponse × Store
  patched = update_user pydantic user_id dumped now s

  -- After a successful update of a stored user with a validated payload the user that is returned
  -- is the one that the id finds. Its `updated_at` is the time of the update, and each other field
  -- holds the payload's value where the payload sets one that is not null, and its old value
  -- otherwise. Every other id finds what it found before.
  pub update_user-updates :
      (existing updated : UserResponse)
      → IsDumped user_update_fields dumped
      → get_user user_id s ≡ ok existing
      → patched.0 ≡ ok updated
      → (get_user user_id patched.1 ≡ ok updated)
        × (updated.updated_at ≡ time now)
        × ((f : UserField)
            → field_name f ≢ "updated_at"
            → attr f updated ≡ given_text (get (field_name f) dumped) (attr f existing))
        × ((id : String) → user_id ≢ id → get_user id patched.1 ≡ get_user id s)
  update_user-updates existing updated valid returned succeeded =
      let stored = (get_user_iff user_id existing s).0 returned in
      let (update, applied, fit, same) =
        update_user-stored pydantic user_id dumped now s existing valid stored in
      let (is_updated, users) =
        apply_update_ok pydantic user_id existing update now s updated
          (ap (λ r. r.0) (sym applied) ∙ succeeded) in
      let users' = ap (λ r. r.1.users) applied ∙ users in
      (
        (get_user_iff user_id updated _).1
            (ap (λ d. get user_id d) users' ∙ get-put_self user_id updated s.users),
        ap (λ u. u.updated_at) (sym is_updated)
            ∙ updated_at-updated_user pydantic existing update now fit,
        (λ f ne.
            ap (attr f) (sym is_updated)
            ∙ attr-updated_user pydantic existing update now fit f ne
            ∙ ap (λ o. overlay o (attr f existing)) (same (field_name f))
            ∙ rw (required f) (overlay-keep (get (field_name f) dumped) (attr f existing))),
        λ id other.
            get_user_of_same id s _ (ap (λ d. get id d) users' ∙ get-put_ne updated s.users other),
      )
