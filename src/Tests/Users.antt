-- ===== src/Tests/Users.antt =====
-- The user store at concrete inputs.
use platform_backend.Prelude.{
  String, ◌≡◌, ◌≢◌, ◌↔◌, ◌⊎◌, refl, none, some, [], ◌∷◌, string_eq, ne_of_beq, arith,
}
use platform_backend.Dict.{Dict, get, has, put, pop, keys}
use platform_backend.Core.ModelUtils.{Value, null, str, time, value_eq, partial_update_dict}
use platform_backend.Core.ModelUtils.Conforms.{ModelCopy, overlay, IsDumped, conforms, given_text}
use platform_backend.UcApi.{
  UserResponse, UserField, UserCreate, field_name, attr, user_update_fields, or_none, str_type,
}
use platform_backend.Uc.{
  Store, ok, conflict, not_found, empty, create_user, update_user, delete_user, get_user,
  get_user_by_username, new_user, list_users, apply_update, is_rename, is_taken, user_id_of,
}
use platform_backend.Uc.Invariant.{IsConsistent, IsConsistent-empty, create_user-IsConsistent}
use platform_backend.Uc.Lookup.{get_user_by_username_iff}
use platform_backend.Uc.Behaviour.{
  create_user-creates, create_user-conflict_iff, delete_user-deletes,
}
use platform_backend.Uc.Rename.{update_user-updates}
use platform_backend.Uc.Conflict.{update_user-conflict_iff}
use platform_backend.Uc.Moves.{update_user-moves}

pub overlaid : UserResponse → Dict String Value → UserResponse
overlaid m u = record {
  id = overlay (get "id" u) m.id;
  username = overlay (get "username" u) m.username;
  email = overlay (get "email" u) m.email;
  status = overlay (get "status" u) m.status;
  created_at = overlay (get "created_at" u) m.created_at;
  updated_at = overlay (get "updated_at" u) m.updated_at;
}

pub attr-overlaid :
    (m : UserResponse) (u : Dict String Value) (f : UserField)
    → attr f (overlaid m u) ≡ overlay (get (field_name f) u) (attr f m)
unfolding overlaid
attr-overlaid m u UserField.id = refl
attr-overlaid m u f = refl

-- A `model_copy` that does what pydantic documents.
abbrev pub copying : ModelCopy UserResponse UserField field_name attr
copying = record { model_copy = overlaid; attr-model_copy = attr-overlaid }

abbrev pub payload_of : String → UserCreate
payload_of name = record { username = name; email = "a@example.com"; password = "secret-secret" }

abbrev pub alice : UserResponse
alice = new_user (payload_of "alice") 1 "1"

abbrev pub bob : UserResponse
bob = new_user (payload_of "bob") 2 "2"

abbrev pub one_user : Store
one_user = record {
  users = ("user_1", alice) ∷ [];
  users_by_username = (str "alice", "user_1") ∷ [];
}

abbrev pub two_users : Store
two_users = record {
  users = ("user_1", alice) ∷ ("user_2", bob) ∷ [];
  users_by_username = (str "alice", "user_1") ∷ (str "bob", "user_2") ∷ [];
}

pub one_user-IsConsistent : IsConsistent one_user
unfolding create_user has get put
one_user-IsConsistent =
    create_user-IsConsistent (payload_of "alice") 1 "1" empty refl IsConsistent-empty

pub two_users-IsConsistent : IsConsistent two_users
unfolding create_user has get put
two_users-IsConsistent =
    create_user-IsConsistent (payload_of "bob") 2 "2" one_user refl one_user-IsConsistent

abbrev pub renaming : String → Dict String Value
renaming name = ("username", str name) ∷ ("email", null) ∷ []

renaming-IsDumped : (name : String) → IsDumped user_update_fields (renaming name)
unfolding get keys conforms
renaming-IsDumped name = record {
  distinct = (refl, (refl, tt));
  fits = λ key v h. (or_none str_type, ground arith, ground arith);
}

routes_run :
    (update_user copying "user_2" (renaming "alice") 9 two_users ≡ (conflict, two_users))
    × ((update_user copying "user_2" (renaming "bert") 9 two_users).1.users_by_username
        ≡ (str "alice", "user_1") ∷ (str "bert", "user_2") ∷ [])
    × (get_user_by_username "bert" two_users ≡ not_found)
    × (list_users two_users ≡ ok (alice ∷ bob ∷ []))
unfolding update_user partial_update_dict apply_update is_rename is_taken get put pop overlaid
    get_user_by_username list_users
routes_run = (refl, refl, refl, refl)

get_user_by_username_iff_example :
    (get_user_by_username "bob" two_users ≡ ok bob)
    ↔ ((id : String) × (get_user id two_users ≡ ok bob) × (bob.username ≡ str "bob"))
get_user_by_username_iff_example =
    get_user_by_username_iff two_users two_users-IsConsistent "bob" bob

bob_found : get_user "user_2" two_users ≡ ok bob
unfolding get_user get
bob_found = refl

update_user-conflict_iff_example :
    (((updated : UserResponse) × ((update_user copying "user_2" (renaming "alice") 9 two_users).0
          ≡ ok updated))
      ⊎ (update_user copying "user_2" (renaming "alice") 9 two_users ≡ (conflict, two_users)))
    × ((update_user copying "user_2" (renaming "alice") 9 two_users ≡ (conflict, two_users)) ↔ (
        (id : String) × (u : UserResponse) × ("user_2" ≢ id)
        × (get_user id two_users ≡ ok u)
        × (get "username" (renaming "alice") ≡ some u.username)))
update_user-conflict_iff_example =
    update_user-conflict_iff copying "user_2" (renaming "alice") 9 two_users bob
      two_users-IsConsistent (renaming-IsDumped "alice") bob_found

abbrev bert : UserResponse
bert = record bob { username = str "bert"; updated_at = time 9 }

bob_renamed : (update_user copying "user_2" (renaming "bert") 9 two_users).0 ≡ ok bert
unfolding update_user partial_update_dict apply_update is_rename is_taken get put overlaid
bob_renamed = refl

update_user-updates_example :
    (get_user "user_2" (update_user copying "user_2" (renaming "bert") 9 two_users).1 ≡ ok bert)
    × (bert.updated_at ≡ time 9)
    × ((f : UserField)
        → field_name f ≢ "updated_at"
        → attr f bert ≡ given_text (get (field_name f) (renaming "bert")) (attr f bob))
    × ((id : String)
        → "user_2" ≢ id
        → get_user id (update_user copying "user_2" (renaming "bert") 9 two_users).1
          ≡ get_user id two_users)
update_user-updates_example =
    update_user-updates copying "user_2" (renaming "bert") 9 two_users bob bert
      (renaming-IsDumped "bert") bob_found bob_renamed

bert_asked : get "username" (renaming "bert") ≡ some (str "bert")
unfolding get
bert_asked = refl

bert_free : get (str "bert") two_users.users_by_username ≡ none
unfolding get
bert_free = refl

bob_not_bert : ◌≢◌ {A = String} "bob" "bert"
bob_not_bert = ne_of_beq "bob" "bert" refl

update_user-moves_example :
    (updated : UserResponse) × ((update_user copying "user_2" (renaming "bert") 9 two_users).0
      ≡ ok updated)
    × (get_user_by_username "bert" (update_user copying "user_2" (renaming "bert") 9 two_users).1
        ≡ ok updated)
    × (get_user_by_username "bob" (update_user copying "user_2" (renaming "bert") 9 two_users).1
        ≡ not_found)
    × ((name : String)
        → "bob" ≢ name
        → "bert" ≢ name
        → get_user_by_username name (update_user copying "user_2" (renaming "bert") 9 two_users).1
          ≡ get_user_by_username name two_users)
update_user-moves_example =
    update_user-moves copying "user_2" (renaming "bert") 9 two_users bob "bob" "bert"
      two_users-IsConsistent (renaming-IsDumped "bert") bob_found refl bert_asked bob_not_bert
      bert_free

bob_unused : get (user_id_of "2") one_user.users ≡ none
unfolding get
bob_unused = refl

pub bob_free : get (str "bob") one_user.users_by_username ≡ none
unfolding get
bob_free = refl

create_user-creates_example :
    ((create_user (payload_of "bob") 2 "2" one_user).0 ≡ ok bob)
    × (get_user "user_2" (create_user (payload_of "bob") 2 "2" one_user).1 ≡ ok bob)
    × (get_user_by_username "bob" (create_user (payload_of "bob") 2 "2" one_user).1 ≡ ok bob)
    × ((id : String)
        → "user_2" ≢ id
        → get_user id (create_user (payload_of "bob") 2 "2" one_user).1 ≡ get_user id one_user)
    × ((name : String)
        → "bob" ≢ name
        → get_user_by_username name (create_user (payload_of "bob") 2 "2" one_user).1
          ≡ get_user_by_username name one_user)
create_user-creates_example =
    create_user-creates (payload_of "bob") 2 "2" one_user one_user-IsConsistent bob_unused bob_free

create_user-conflict_iff_example :
    (((create_user (payload_of "alice") 3 "3" one_user).0 ≡ conflict) ↔ (
      (id : String) × (user : UserResponse) × (get_user id one_user ≡ ok user)
      × (user.username ≡ str "alice")))
    × ((create_user (payload_of "alice") 3 "3" one_user ≡ (conflict, one_user))
        ⊎ ((create_user (payload_of "alice") 3 "3" one_user).0
            ≡ ok (new_user (payload_of "alice") 3 "3")))
create_user-conflict_iff_example =
    create_user-conflict_iff (payload_of "alice") 3 "3" one_user one_user-IsConsistent

delete_user-deletes_example :
    ((delete_user "user_2" two_users).0 ≡ ok tt)
    × (get_user "user_2" (delete_user "user_2" two_users).1 ≡ not_found)
    × (get_user_by_username "bob" (delete_user "user_2" two_users).1 ≡ not_found)
    × ((id : String)
        → "user_2" ≢ id
        → get_user id (delete_user "user_2" two_users).1 ≡ get_user id two_users)
    × ((other : String)
        → "bob" ≢ other
        → get_user_by_username other (delete_user "user_2" two_users).1
          ≡ get_user_by_username other two_users)
delete_user-deletes_example =
    delete_user-deletes "user_2" two_users bob "bob" two_users-IsConsistent bob_found refl

pub bob_stored : get "user_2" two_users.users ≡ some bob
unfolding get
bob_stored = refl
