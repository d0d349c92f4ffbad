-- ===== src/Uc/Conflict.antt =====
-- When an update answers 409, and how a rename moves the name.
use mathlib.Core.Path.{subst}
use platform_backend.Prelude.{
  ℕ, String, ◌≡◌, ◌≢◌, ◌↔◌, ◌⊎◌, inl, inr, refl, sym, ◌∙◌, ap, arith, Option, none, some,
  Bool-cases, some_inj, Bool, true, false, string_eq, eq_iff, ◌&&◌, beq_of_ne,
}
use platform_backend.Dict.{Dict, get}
use platform_backend.Core.ModelUtils.{Value, str, time, null, is_null, value_eq}
use platform_backend.Core.ModelUtils.Laws.{keep}
use platform_backend.Core.ModelUtils.Conforms.{ModelCopy, IsDumped, conforms}
use platform_backend.UcApi.{UserResponse, UserField, field_name, attr, user_update_fields, str_type}
use platform_backend.Uc.{
  Store, Reply, ok, conflict, get_user, update_user, apply_update, or_null, is_rename, is_taken,
}
use platform_backend.Uc.Invariant.{IsConsistent, IsUserResponse}
use platform_backend.Uc.Lookup.{get_user_iff}
use platform_backend.Uc.Update.{update_user-stored}
use platform_backend.Uc.Rename.{required, apply_update_cases}

text_filled : (v : Value) → conforms str_type v ≡ true → is_null v ≡ false
unfolding conforms
text_filled null h = cc
text_filled (str s) h = refl
text_filled (time t) h = refl

username_filled : (u : UserResponse) → IsUserResponse u → is_null u.username ≡ false
unfolding get
username_filled u h =
    let (a, declared, fits) = h UserField.username in
    text_filled u.username
      (subst (λ t. conforms t u.username ≡ true) (sym (some_inj declared)) fits)

taken_owner :
    (o : Option String) (id : String)
    → is_taken o id ≡ true
    → (owner : String) × (o ≡ some owner) × (id ≢ owner)
unfolding is_taken
taken_owner none id h = cc
taken_owner (some owner) id h = (owner, refl, λ p. ground (arith, eq_iff owner id))

is_taken_of_owner : (owner id : String) → id ≢ owner → is_taken (some owner) id ≡ true
unfolding is_taken
is_taken_of_owner owner id h = ground (arith, eq_iff owner id)

pub is_rename_of_ne :
    (new : Value) (existing : UserResponse)
    → is_null new ≡ false
    → new ≢ existing.username
    → is_rename new existing ≡ true
unfolding is_rename
is_rename_of_ne new existing filled ne = rw (filled, beq_of_ne new existing.username ne) refl

is_rename-filled :
    (new : Value) (existing : UserResponse) → is_rename new existing ≡ true → is_null new ≡ false
unfolding is_rename
is_rename-filled null existing h = cc
is_rename-filled (str s) existing h = refl
is_rename-filled (time t) existing h = refl

keep_filled : (v : Value) → is_null v ≡ false → keep false (some v) ≡ some v
keep_filled null h = cc
keep_filled (str s) h = refl
keep_filled (time t) h = refl

-- What a non-null entry of the computed update was in the payload.
given_of_keep :
    (o : Option Value)
    → is_null (or_null (keep false o)) ≡ false
    → o ≡ some (or_null (keep false o))
given_of_keep none h = cc
given_of_keep (some null) h = cc
given_of_keep (some (str s)) h = refl
given_of_keep (some (time t)) h = refl

and_true : (a b : Bool) → (a && b) ≡ true → (a ≡ true) × (b ≡ true)
and_true a b h = ground arith

module _ (pydantic : ModelCopy UserResponse UserField field_name attr) (user_id : String)
    (dumped : Dict String Value) (now : ℕ) (s : Store) where
  abbrev patched : Reply UserResponse × Store
  patched = update_user pydantic user_id dumped now s

  abbrev IsClaimed : Type 0
  IsClaimed =
      (id : String) × (u : UserResponse) × (user_id ≢ id)
      × (get_user id s ≡ ok u)
      × (get "username" dumped ≡ some u.username)

  abbrev refused : UserResponse → Dict String Value → Bool
  refused existing update =
      is_rename (or_null (get "username" update)) existing
      && is_taken (get (or_null (get "username" update)) s.users_by_username) user_id

  guards :
      (existing : UserResponse) (update : Dict String Value)
      → apply_update pydantic user_id existing update now s ≡ (conflict, s)
      → refused existing update ≡ true
  unfolding apply_update
  guards existing update e = elim (Bool-cases (refused existing update)) [
    | inl stop ↦ stop
    | inr go ↦ cc (ap (λ r. r.0) (rw go at e))
  ]

  module _ (existing : UserResponse) (update : Dict String Value) (h : IsConsistent s) where
    claimed :
        get "username" update ≡ keep false (get "username" dumped)
        → refused existing update ≡ true
        → IsClaimed
    claimed username stop =
        let (rename, taken) = and_true _ _ stop in
        let (owner, listed, other) = taken_owner _ user_id taken in
        let (w, there, named) = h.sound _ owner listed in
        let filled = is_rename-filled _ existing rename in
        (
          owner,
          w,
          other,
          (get_user_iff owner w s).1 there,
          given_of_keep (get "username" dumped)
                (subst (λ o. is_null (or_null o) ≡ false) username filled)
              ∙ ap (λ o. some (or_null o)) (sym username)
              ∙ ap some (sym named),
        )

    claim_guards :
        get user_id s.users ≡ some existing
        → get "username" update ≡ keep false (get "username" dumped)
        → IsClaimed
        → refused existing update ≡ true
    claim_guards stored username (id, u, other, returned, asked) =
        let there = (get_user_iff id u s).0 returned in
        let listed = h.complete id u there in
        let filled = username_filled u (h.typed id u there) in
        let wanted = username ∙ ap (keep false) asked ∙ keep_filled u.username filled in
        rw
          (
            wanted,
            listed,
            is_rename_of_ne u.username existing filled (λ p. other (
                some_inj (
                  sym (h.complete user_id existing stored)
                  ∙ ap (λ n. get n s.users_by_username) (sym p)
                  ∙ listed))),
            is_taken_of_owner id user_id other,
          )
          refl

  -- In a consistent store the update of a stored user with a validated payload either succeeds, or
  -- it answers 409 and changes nothing; the latter exactly if the payload asks for a name that the
  -- user of another id has.
  pub update_user-conflict_iff :
      (existing : UserResponse)
      → IsConsistent s
      → IsDumped user_update_fields dumped
      → get_user user_id s ≡ ok existing
      → (((updated : UserResponse) × (patched.0 ≡ ok updated)) ⊎ (patched ≡ (conflict, s)))
        × ((patched ≡ (conflict, s)) ↔ IsClaimed)
  update_user-conflict_iff existing h valid returned =
      let stored = (get_user_iff user_id existing s).0 returned in
      let (update, applied, fit, same) =
        update_user-stored pydantic user_id dumped now s existing valid stored in
      let username =
        same "username" ∙ ap (λ b. keep b (get "username" dumped)) (required UserField.username) in
      (
        elim (apply_update_cases pydantic user_id existing update now s) [
          | inl stopped ↦ inr (applied ∙ stopped)
          | inr (ok_updated, users) ↦ inl (_, ap (λ r. r.0) applied ∙ ok_updated)
        ],
        (
          (λ e. claimed existing update h username (guards existing update (sym applied ∙ e))),
          λ c.
              applied
              ∙ unfold apply_update in rw (claim_guards existing update h stored username c) refl,
        ),
      )
