-- ===== src/Uc/Update.antt =====
-- apps/uc/src/novon/uc/api/routes.py, update_user: the stored user, and that the invariant is kept.
use mathlib.Core.Path.{subst}
use platform_backend.Prelude.{
  ℕ, String, ◌≡◌, refl, sym, ◌∙◌, ap, ◌≢◌, inl, inr, arith, true, false, Option, none, some,
  string_eq, Bool-cases, Option-cases, ne_of_beq, some_inj,
}
use platform_backend.Dict.{Dict, get, put}
use platform_backend.Dict.Laws.{get-put_self, get-put_ne}
use platform_backend.Core.Typehints.{Annotation}
use platform_backend.Core.ModelUtils.{Value, null, str, time, value_eq, value_beq_iff}
use platform_backend.Core.ModelUtils.Laws.{is_nullable, keep, get-partial_update_dict}
use platform_backend.Core.ModelUtils.Conforms.{ModelCopy, overlay, conforms, IsDumped}
use platform_backend.UcApi.{
  UserResponse, UserField, field_name, attr, user_response_fields, user_update_fields,
  datetime_type,
}
use platform_backend.Uc.{
  Store, is_rename, is_taken, or_null, apply_update, update_existing, update_found, update_user,
}
use platform_backend.Uc.Replace.{replace-IsConsistent, rename-IsConsistent}
use platform_backend.Uc.Invariant.{IsConsistent, IsUserResponse}
use platform_backend.Uc.Fits.{
  user_response-IsModel, user_response-IsDistinct, FitsUpdate, update-FitsUpdate,
}

overlay_of_rename :
    (o : Option Value) (existing : UserResponse)
    → is_rename (or_null o) existing ≡ true
    → overlay o existing.username ≡ or_null o
unfolding is_rename
overlay_of_rename none existing h = cc
overlay_of_rename (some v) existing h = refl

overlay_of_other :
    (o : Option Value) (existing : UserResponse)
    → o ≢ some null
    → is_rename (or_null o) existing ≡ false
    → overlay o existing.username ≡ existing.username
unfolding is_rename
overlay_of_other none existing n h = refl
overlay_of_other (some null) existing n h = absurd (n refl)
overlay_of_other (some (str s)) existing n h =
    (value_beq_iff (str s) existing.username).0 (ground arith)
overlay_of_other (some (time t)) existing n h =
    (value_beq_iff (time t) existing.username).0 (ground arith)

username-ne-null :
    (update : Dict String Value) → FitsUpdate update → get "username" update ≢ some null
unfolding get conforms
username-ne-null update fit h =
    let (a, declared, fits) = fit.typed UserField.username null h in
    cc (subst (λ t. conforms t null ≡ true) (sym (some_inj declared)) fits)

module _ (pydantic : ModelCopy UserResponse UserField field_name attr) where
  -- The user that `update_user` stores.
  abbrev pub updated_user : UserResponse → Dict String Value → ℕ → UserResponse
  updated_user existing update now =
      pydantic.model_copy existing (put "updated_at" (time now) update)

  module _ (existing : UserResponse) (update : Dict String Value) (now : ℕ)
      (fit : FitsUpdate update) where
    pub attr-updated_user :
        (f : UserField)
        → field_name f ≢ "updated_at"
        → attr f (updated_user existing update now)
          ≡ overlay (get (field_name f) update) (attr f existing)
    attr-updated_user f h =
        pydantic.attr-model_copy existing _ f
        ∙ ap (λ o. overlay o (attr f existing)) (get-put_ne (time now) update (λ p. h (sym p)))

    pub id-updated_user : (updated_user existing update now).id ≡ existing.id
    id-updated_user =
        attr-updated_user UserField.id (ne_of_beq _ _ refl)
        ∙ ap (λ o. overlay o existing.id) fit.no_id

    typed_field :
        IsUserResponse existing
        → (f : UserField) → field_name f ≢ "updated_at"
        → (a : Annotation) × (get (field_name f) user_response_fields ≡ some a)
          × (conforms a (attr f (updated_user existing update now)) ≡ true)
    typed_field h f ne = elim (Option-cases (get (field_name f) update)) [
      | inl missing ↦
          let (a, declared, fits) = h f in (a, declared, rw (attr-updated_user f ne, missing) fits)
      | inr (v, given) ↦
          let (a, declared, fits) = fit.typed f v given in
          (a, declared, rw (attr-updated_user f ne, given) fits)
    ]

    pub updated_at-updated_user : (updated_user existing update now).updated_at ≡ time now
    updated_at-updated_user =
        pydantic.attr-model_copy existing _ UserField.updated_at
        ∙ ap (λ o. overlay o existing.updated_at) (get-put_self "updated_at" (time now) update)

    pub updated_user-IsUserResponse :
        IsUserResponse existing → IsUserResponse (updated_user existing update now)
    unfolding get conforms
    updated_user-IsUserResponse h UserField.updated_at =
        (datetime_type, refl, rw updated_at-updated_user)
    updated_user-IsUserResponse h UserField.id = typed_field h UserField.id (ne_of_beq _ _ refl)
    updated_user-IsUserResponse h f = typed_field h f (ne_of_beq _ _ refl)

    -- A rename stores the new name, and any other update keeps the old one.
    pub username_of_rename :
        is_rename (or_null (get "username" update)) existing ≡ true
        → (updated_user existing update now).username ≡ or_null (get "username" update)
    username_of_rename h =
        attr-updated_user UserField.username (ne_of_beq _ _ refl)
        ∙ overlay_of_rename (get "username" update) existing h

    pub username_of_other :
        is_rename (or_null (get "username" update)) existing ≡ false
        → (updated_user existing update now).username ≡ existing.username
    username_of_other h =
        attr-updated_user UserField.username (ne_of_beq _ _ refl)
        ∙ overlay_of_other (get "username" update) existing (username-ne-null update fit) h

  module _ (user_id : String) (existing : UserResponse) (update : Dict String Value) (now : ℕ)
      (s : Store) (fit : FitsUpdate update) (h : IsConsistent s)
      (stored : get user_id s.users ≡ some existing) where
    own_id-updated_user : (updated_user existing update now).id ≡ str user_id
    own_id-updated_user = id-updated_user existing update now fit ∙ h.own_id user_id existing stored

    apply_update-IsConsistent : IsConsistent (apply_update pydantic user_id existing update now s).1
    unfolding apply_update
    apply_update-IsConsistent =
        elim (Bool-cases (is_rename (or_null (get "username" update)) existing)) [
          | inl rename ↦
              elim (Bool-cases
                (is_taken (get (or_null (get "username" update)) s.users_by_username) user_id)) [
                  | inl taken ↦ rw (rename, taken) h
                  | inr free ↦
                      rw (rename, free)
                        (rename-IsConsistent s user_id existing (updated_user existing update now) h
                          stored own_id-updated_user
                          (updated_user-IsUserResponse existing update now fit
                            (h.typed user_id existing stored))
                          (or_null (get "username" update))
                          (username_of_rename existing update now fit rename) free)
                ]
          | inr other ↦ rw other (
              replace-IsConsistent s user_id existing (updated_user existing update now) h stored
                own_id-updated_user
                (updated_user-IsUserResponse existing update now fit
                  (h.typed user_id existing stored))
                (username_of_other existing update now fit other))
        ]

  -- On a stored user the route computes a fitting update and applies it.
  pub update_user-stored :
      (user_id : String) (dumped : Dict String Value) (now : ℕ) (s : Store)
      (existing : UserResponse)
      → IsDumped user_update_fields dumped
      → get user_id s.users ≡ some existing
      → (update : Dict String Value) × (update_user pydantic user_id dumped now s
          ≡ apply_update pydantic user_id existing update now s)
        × FitsUpdate update
        × ((key : String)
            → get key update ≡ keep (is_nullable key user_response_fields) (get key dumped))
  unfolding update_user
  update_user-stored user_id dumped now s existing valid stored =
      let (update, computed, same) =
        get-partial_update_dict dumped user_response_fields valid.distinct user_response-IsModel
          user_response-IsDistinct in
      (
        update,
        rw (stored, update_found, computed, update_existing) refl,
        update-FitsUpdate dumped update valid same,
        same,
      )

  -- Updating a user with a validated payload keeps the store consistent, on every branch.
  pub update_user-IsConsistent :
      (user_id : String) (dumped : Dict String Value) (now : ℕ) (s : Store)
      → IsDumped user_update_fields dumped
      → IsConsistent s
      → IsConsistent (update_user pydantic user_id dumped now s).1
  update_user-IsConsistent user_id dumped now s valid h =
      elim (Option-cases (get user_id s.users)) [
        | inl missing ↦ unfold update_user in rw (missing, update_found) h
        | inr (existing, stored) ↦
            let (update, applied, fit, same) =
              update_user-stored user_id dumped now s existing valid stored in
            rw applied (apply_update-IsConsistent user_id existing update now s fit h stored)
      ]
