-- ===== src/Uc/Runs.antt =====
-- Every store that the routes can reach is consistent.
use platform_backend.Prelude.{ℕ, String, ◌≡◌, none, string_eq}
use platform_backend.Dict.{Dict, get}
use platform_backend.Core.ModelUtils.{Value}
use platform_backend.Core.ModelUtils.Conforms.{ModelCopy, IsDumped}
use platform_backend.UcApi.{
  UserResponse, UserField, UserCreate, field_name, attr, user_update_fields,
}
use platform_backend.Uc.{Store, empty, create_user, update_user, delete_user, user_id_of}
use platform_backend.Uc.Invariant.{
  IsConsistent, IsConsistent-empty, create_user-IsConsistent, delete_user-IsConsistent,
}
use platform_backend.Uc.Update.{update_user-IsConsistent}

module _ (pydantic : ModelCopy UserResponse UserField field_name attr) where
  -- One request that may write. A creation draws a UUID whose id is not in use; pydantic has
  -- validated an update's payload. The routes that only read return no store.
  pub data Step (s t : Store) : Type 0 where
    creates :
        (payload : UserCreate) (now : ℕ) (uuid : String)
        → get (user_id_of uuid) s.users ≡ none
        → t ≡ (create_user payload now uuid s).1
        → Step s t
    updates :
        (user_id : String) (dumped : Dict String Value) (now : ℕ)
        → IsDumped user_update_fields dumped
        → t ≡ (update_user pydantic user_id dumped now s).1
        → Step s t
    deletes : (user_id : String) → t ≡ (delete_user user_id s).1 → Step s t

  pub data Reach (s : Store) : Store → Type 0 where
    here : Reach s s
    next : {t u : Store} → Reach s t → Step t u → Reach s u

  Step-IsConsistent : {s t : Store} → Step s t → IsConsistent s → IsConsistent t
  Step-IsConsistent {s} (creates payload now uuid fresh e) h =
      rw e (create_user-IsConsistent payload now uuid s fresh h)
  Step-IsConsistent {s} (updates user_id dumped now valid e) h =
      rw e (update_user-IsConsistent pydantic user_id dumped now s valid h)
  Step-IsConsistent {s} (deletes user_id e) h = rw e (delete_user-IsConsistent user_id s h)

  Reach-keeps : {s t : Store} → Reach s t → IsConsistent s → IsConsistent t
  Reach-keeps here h = h
  Reach-keeps (next r step) h = Step-IsConsistent step (Reach-keeps r h)

  -- Whatever requests run, in whatever order, from the empty store they reach a consistent one: the
  -- username index holds exactly the stored users' names, each user is stored under its own id, no
  -- id is listed twice and every field is typed as the contract says.
  pub Reach-IsConsistent : (s : Store) → Reach empty s → IsConsistent s
  Reach-IsConsistent s r = Reach-keeps r IsConsistent-empty
