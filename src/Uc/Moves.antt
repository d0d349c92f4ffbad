-- ===== src/Uc/Moves.antt =====
-- A rename moves the name: the new one finds the user, and the old one is free.
use platform_backend.Prelude.{ℕ, String, ◌≡◌, ◌≢◌, refl, sym, ◌∙◌, none, some, string_eq}
use platform_backend.Dict.{Dict, get, put, pop}
use platform_backend.Dict.Laws.{get-put_self, get-put_ne, get-pop_self, get-pop_ne}
use platform_backend.Core.ModelUtils.{Value, str, value_eq}
use platform_backend.Core.ModelUtils.Conforms.{ModelCopy, IsDumped}
use platform_backend.UcApi.{UserResponse, UserField, field_name, attr, user_update_fields}
use platform_backend.Uc.{
  Store, ok, not_found, get_user, get_user_by_username, update_user, apply_update, is_taken,
}
use platform_backend.Uc.Invariant.{IsConsistent}
use platform_backend.Uc.Lookup.{get_user_iff}
use platform_backend.Uc.Behaviour.{
  by_username_of_same, by_username_found, by_username_missing, str_ne,
}
use platform_backend.Uc.Update.{updated_user, update_user-stored}
use platform_backend.Uc.Rename.{required}
use platform_backend.Uc.Conflict.{is_rename_of_ne}

module _ (pydantic : ModelCopy UserResponse UserField field_name attr) (user_id : String)
    (existing : UserResponse) (update : Dict String Value) (now : ℕ) (s : Store) (old new : String)
    (h : IsConsistent s) (stored : get user_id s.users ≡ some existing)
    (named : existing.username ≡ str old) (asked : get "username" update ≡ some (str new))
    (changed : old ≢ new) (free : get (str new) s.users_by_username ≡ none) where
  abbrev moved : Store
  moved = record {
    users = put user_id (updated_user pydantic existing update now) s.users;
    users_by_username = put (str new) user_id (pop existing.username s.users_by_username);
  }

  apply_update-moves :
      apply_update pydantic user_id existing update now s
      ≡ (ok (updated_user pydantic existing update now), moved)
  unfolding apply_update is_taken
  apply_update-moves =
      rw
        (asked, free, is_rename_of_ne (str new) existing refl (λ p. str_ne changed (cc (named, p))))
        refl

  new_found : get_user_by_username new moved ≡ ok (updated_user pydantic existing update now)
  new_found =
      by_username_found new user_id _ moved (get-put_self (str new) user_id _)
        (get-put_self user_id _ s.users)

  old_free : get_user_by_username old moved ≡ not_found
  old_free = by_username_missing old moved (
      get-put_ne user_id _ (str_ne (λ p. changed (sym p)))
      ∙ rw named (get-pop_self (str old) s.users_by_username))

  others_kept :
      (name : String)
      → old ≢ name
      → new ≢ name
      → get_user_by_username name moved ≡ get_user_by_username name s
  others_kept name not_old not_new =
      by_username_of_same name s moved
        (get-put_ne user_id _ (str_ne not_new)
          ∙ get-pop_ne s.users_by_username (λ p. str_ne not_old (cc (named, p))))
        λ id listed.
          let (w, there, called) = h.sound (str name) id listed in
          get-put_ne _ s.users (λ p. str_ne not_old (cc (p, there, stored, called, named)))

-- In a consistent store a stored user whose name is `old`, and a validated payload that asks for
-- another name `new` which no user has: the update succeeds, `new` then finds the updated user,
-- `old` finds no user, and every other name finds what it found before.
pub update_user-moves :
    (pydantic : ModelCopy UserResponse UserField field_name attr) (user_id : String)
    (dumped : Dict String Value) (now : ℕ) (s : Store) (existing : UserResponse) (old new : String)
    → IsConsistent s
    → IsDumped user_update_fields dumped
    → get_user user_id s ≡ ok existing
    → existing.username ≡ str old
    → get "username" dumped ≡ some (str new)
    → old ≢ new
    → get (str new) s.users_by_username ≡ none
    → (updated : UserResponse) × ((update_user pydantic user_id dumped now s).0 ≡ ok updated)
      × (get_user_by_username new (update_user pydantic user_id dumped now s).1 ≡ ok updated)
      × (get_user_by_username old (update_user pydantic user_id dumped now s).1 ≡ not_found)
      × ((name : String)
          → old ≢ name
          → new ≢ name
          → get_user_by_username name (update_user pydantic user_id dumped now s).1
            ≡ get_user_by_username name s)
update_user-moves pydantic user_id dumped now s existing old new h valid returned named asked
      changed free =
    let stored = (get_user_iff user_id existing s).0 returned in
    let (update, applied, fit, same) =
      update_user-stored pydantic user_id dumped now s existing valid stored in
    let asked' : get "username" update ≡ some (str new) =
      same "username" ∙ rw (required UserField.username, asked) refl in
    let result =
      applied
      ∙ apply_update-moves pydantic user_id existing update now s old new h stored named asked'
          changed free in
    rw result (
      updated_user pydantic existing update now,
      refl,
      new_found pydantic user_id existing update now s old new h stored named asked' changed free,
      old_free pydantic user_id existing update now s old new h stored named asked' changed free,
      others_kept pydantic user_id existing update now s old new h stored named asked' changed free,
    )
