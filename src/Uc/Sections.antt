-- ===== src/Uc/Sections.antt =====
-- The routes of apps/uc/src/novon/uc/api/routes.py as code under `_USERS_LOCK`, with one access for each
-- look at, or write to, one of the two dictionaries.
use platform_backend.Prelude.{ℕ, String, List, string_eq, if◌then◌else◌}
use platform_backend.Lock.{Section, leaves, reads, writes, access, item}
use platform_backend.Dict.{Dict, get, has, put, pop, values}
use platform_backend.Core.ModelUtils.{Value, str, time, value_eq, partial_update_dict}
use platform_backend.Core.ModelUtils.Conforms.{ModelCopy}
use platform_backend.UcApi.{
  UserResponse, UserField, field_name, attr, UserCreate, user_response_fields,
}
use platform_backend.Uc.{
  Store, Reply, ok, unhandled, not_found, conflict, list_users, get_user, get_user_by_username,
  user_id_of, new_user, create_user, is_rename, is_taken, or_null, update_user, delete_user,
}

-- A request for one of the routes. A creation carries the time and the UUID that its route draws, and an
-- update its dumped payload and the time.
pub data Request : Type 0 where
  lists : Request
  looks_up : (username : String) → Request
  gets : (user_id : String) → Request
  creates : (payload : UserCreate) (now : ℕ) (uuid : String) → Request
  updates : (user_id : String) (dumped : Dict String Value) (now : ℕ) → Request
  deletes : (user_id : String) → Request

pub data Answer : Type 0 where
  users : Reply (List UserResponse) → Answer
  user : Reply UserResponse → Answer
  nothing : Reply (Unit {0}) → Answer

abbrev pub Code : Type 0
Code = Section Store Answer

abbrev pub write_user : String → UserResponse → Store → Store
write_user user_id u s = record {
  users = put user_id u s.users;
  users_by_username = s.users_by_username;
}

abbrev pub write_name : Value → String → Store → Store
write_name name user_id s = record {
  users = s.users;
  users_by_username = put name user_id s.users_by_username;
}

abbrev pub pop_user : String → Store → Store
pop_user user_id s = record { users = pop user_id s.users; users_by_username = s.users_by_username }

abbrev pub pop_name : Value → Store → Store
pop_name name s = record { users = s.users; users_by_username = pop name s.users_by_username }

unfoldable pub list_section : Code
list_section = reads (λ s. leaves (users (ok (values s.users))))

-- The user of a known id: `in _USERS` first, then `_USERS[user_id]`.
abbrev pub user_section : String → Code
user_section user_id = reads (λ s.
    if has user_id s.users
    then reads
        (λ s. item (get user_id s.users) (leaves (user unhandled)) (λ u. leaves (user (ok u))))
    else leaves (user not_found))

unfoldable pub get_user_section : String → Code
get_user_section user_id = user_section user_id

unfoldable pub get_user_by_username_section : String → Code
get_user_by_username_section username =
    reads
      (λ s. item (get (str username) s.users_by_username) (leaves (user not_found)) user_section)

unfoldable pub create_user_section : UserCreate → ℕ → String → Code
create_user_section payload now uuid = reads (λ s.
    if has (str payload.username) s.users_by_username
    then leaves (user conflict)
    else writes (write_user (user_id_of uuid) (new_user payload now uuid)) (
        writes (write_name (str payload.username) (user_id_of uuid))
          (leaves (user (ok (new_user payload now uuid))))))

module _ (pydantic : ModelCopy UserResponse UserField field_name attr) where
  -- The writes of an update that no other user's name stops.
  abbrev pub write_section : String → UserResponse → Value → UserResponse → Code
  write_section user_id existing new_username updated = writes (write_user user_id updated) (
      if is_rename new_username existing
      then writes (pop_name existing.username)
          (writes (write_name new_username user_id) (leaves (user (ok updated))))
      else leaves (user (ok updated)))

  abbrev pub apply_section : String → UserResponse → Dict String Value → ℕ → Code
  apply_section user_id existing update now =
      let new_username = or_null (get "username" update) in
      let go =
        write_section user_id existing new_username
          (pydantic.model_copy existing (put "updated_at" (time now) update)) in
      if is_rename new_username existing
      then reads (λ s.
        if is_taken (get new_username s.users_by_username) user_id
        then leaves (user conflict)
        else go)
      else go

  unfoldable pub update_user_section : String → Dict String Value → ℕ → Code
  update_user_section user_id dumped now = reads (λ s.
      if has user_id s.users
      then reads (λ s. item (get user_id s.users) (leaves (user unhandled)) (λ existing.
        item (partial_update_dict dumped user_response_fields) (leaves (user unhandled))
          (λ update. apply_section user_id existing update now)))
      else leaves (user not_found))

-- `_USERS.pop(user_id)` takes the user out and raises a KeyError where it is missing.
unfoldable pub delete_user_section : String → Code
delete_user_section user_id = reads (λ s.
    if has user_id s.users
    then access (pop_user user_id) (λ s.
      item (get user_id s.users) (leaves (nothing unhandled))
        (λ u. writes (pop_name u.username) (leaves (nothing (ok tt)))))
    else leaves (nothing not_found))

module _ (pydantic : ModelCopy UserResponse UserField field_name attr) where
  unfoldable pub section : Request → Code
  section lists = list_section
  section (looks_up username) = get_user_by_username_section username
  section (gets user_id) = get_user_section user_id
  section (creates payload now uuid) = create_user_section payload now uuid
  section (updates user_id dumped now) = update_user_section pydantic user_id dumped now
  section (deletes user_id) = delete_user_section user_id

  -- The whole route as one step on the store.
  unfoldable pub route : Request → Store → Answer × Store
  route lists s = (users (list_users s), s)
  route (looks_up username) s = (user (get_user_by_username username s), s)
  route (gets user_id) s = (user (get_user user_id s), s)
  route (creates payload now uuid) s =
      (user (create_user payload now uuid s).0, (create_user payload now uuid s).1)
  route (updates user_id dumped now) s = (
    user (update_user pydantic user_id dumped now s).0,
    (update_user pydantic user_id dumped now s).1,
  )
  route (deletes user_id) s = (nothing (delete_user user_id s).0, (delete_user user_id s).1)
