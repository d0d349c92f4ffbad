-- ===== src/Uc.antt =====
-- apps/uc/src/novon/uc/api/routes.py: the user store, its username index and the routes on them.
-- Each route holds the lock from its first look at the store to its last write; here it is one step
-- on the store. `now` is `datetime.now(UTC)` and `uuid` the text of `uuid4()`, both arguments.
-- An update payload enters as `payload.model_dump(exclude_unset=True)`.
pub mod Invariant
pub mod Lookup
pub mod Rename
pub mod Moves
pub mod Runs
pub mod Conflict
pub mod Behaviour
pub mod Replace
pub mod Update
pub mod Fits
pub mod Sections
pub mod Serve
pub mod Abstract
pub mod Concurrent
use platform_backend.Prelude.{
  ℕ, String, ◌&◌, Bool, false, not, ◌&&◌, Option, none, some, List, [], ◌∷◌, ◌==◌, string_eq,
  if◌then◌else◌,
}
use platform_backend.Auth.{get_current_user}
use platform_backend.Dict.{Dict, get, has, put, pop, values}
use platform_backend.Core.ModelUtils.{
  Value, null, str, time, is_null, value_eq, partial_update_dict,
}
use platform_backend.Core.ModelUtils.Conforms.{ModelCopy}
use platform_backend.UcApi.{
  UserResponse, UserField, field_name, attr, UserCreate, user_response_fields,
}

pub record Store : Type 0 where
  pub users : Dict String UserResponse
  pub users_by_username : Dict Value String

abbrev pub empty : Store
empty = record { users = []; users_by_username = [] }

-- A route returns, or raises an HTTPException; `unhandled` is any other exception.
pub data Reply (A : Type 0) : Type 0 where
  ok : A → Reply A
  http_exception : (status_code : ℕ) (detail : String) → Reply A
  unhandled : Reply A

abbrev pub not_found : {A : Type 0} → Reply A
not_found = http_exception 404 "User not found"

abbrev pub conflict : {A : Type 0} → Reply A
conflict = http_exception 409 "Username already exists"

unfoldable pub healthz : Dict String String
healthz = ("status", "ok") ∷ []

unfoldable pub me : Dict String String
unfolding get_current_user
me = ("user", get_current_user) ∷ []

unfoldable pub list_users : Store → Reply (List UserResponse)
unfolding values
list_users s = ok (values s.users)

abbrev pub found : Option UserResponse → Reply UserResponse
found none = not_found
found (some user) = ok user

unfoldable pub get_user : String → Store → Reply UserResponse
get_user user_id s = found (get user_id s.users)

abbrev pub found_by_id : Store → Option String → Reply UserResponse
found_by_id s none = not_found
found_by_id s (some user_id) = found (get user_id s.users)

unfoldable pub get_user_by_username : String → Store → Reply UserResponse
get_user_by_username username s = found_by_id s (get (str username) s.users_by_username)

-- f"user_{uuid4()}"
abbrev pub user_id_of : String → String
user_id_of uuid = "user_" & uuid

abbrev pub new_user : UserCreate → ℕ → String → UserResponse
new_user payload now uuid = record {
  id = str (user_id_of uuid);
  username = str payload.username;
  email = str payload.email;
  status = str "active";
  created_at = time now;
  updated_at = time now;
}

unfoldable pub create_user : UserCreate → ℕ → String → Store → Reply UserResponse × Store
create_user payload now uuid s =
    if has (str payload.username) s.users_by_username then (conflict, s) else (
      ok (new_user payload now uuid),
      record {
        users = put (user_id_of uuid) (new_user payload now uuid) s.users;
        users_by_username = put (str payload.username) (user_id_of uuid) s.users_by_username;
      },
    )

-- `new_username is not None and new_username != existing.username`
unfoldable pub is_rename : Value → UserResponse → Bool
is_rename new_username existing =
    not (is_null new_username) && not (new_username == existing.username)

-- `owner_id is not None and owner_id != user_id`
unfoldable pub is_taken : Option String → String → Bool
is_taken none user_id = false
is_taken (some owner_id) user_id = not (owner_id == user_id)

abbrev pub or_null : Option Value → Value
or_null none = null
or_null (some v) = v

module _ (pydantic : ModelCopy UserResponse UserField field_name attr) where
  -- The body of `update_user` from the computed update on.
  unfoldable pub apply_update :
      String → UserResponse → Dict String Value → ℕ → Store → Reply UserResponse × Store
  apply_update user_id existing update now s =
      let new_username = or_null (get "username" update) in
      let updated = pydantic.model_copy existing (put "updated_at" (time now) update) in
      if is_rename new_username existing && is_taken (get new_username s.users_by_username) user_id
      then (conflict, s)
      else (
        ok updated,
        record {
          users = put user_id updated s.users;
          users_by_username =
              (if is_rename new_username existing
                then put new_username user_id (pop existing.username s.users_by_username)
                else s.users_by_username);
        },
      )

  abbrev pub update_existing :
      String → UserResponse → Option (Dict String Value) → ℕ → Store → Reply UserResponse × Store
  update_existing user_id existing none now s = (unhandled, s)
  update_existing user_id existing (some update) now s = apply_update user_id existing update now s

  abbrev pub update_found :
      String → Option UserResponse → Dict String Value → ℕ → Store → Reply UserResponse × Store
  update_found user_id none dumped now s = (not_found, s)
  update_found user_id (some existing) dumped now s =
      update_existing user_id existing (partial_update_dict dumped user_response_fields) now s

  unfoldable pub update_user : String → Dict String Value → ℕ → Store → Reply UserResponse × Store
  update_user user_id dumped now s = update_found user_id (get user_id s.users) dumped now s

abbrev pub delete_found : String → Option UserResponse → Store → Reply Unit × Store
delete_found user_id none s = (not_found, s)
delete_found user_id (some user) s = (
  ok tt,
  record { users = pop user_id s.users; users_by_username = pop user.username s.users_by_username },
)

unfoldable pub delete_user : String → Store → Reply Unit × Store
delete_user user_id s = delete_found user_id (get user_id s.users) s
