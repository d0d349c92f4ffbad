-- ===== src/Tests/Unlocked.antt =====
-- What the threads of flow requests do where nobody takes the lock: the two failures that the comment
-- beside `_FLOWS_LOCK` names.
use platform_backend.Prelude.{ℕ, zero, suc, ◌≡◌, refl, none, true, string_eq, nat_eq}
use platform_backend.Lock.{Section, leaves, access}
use platform_backend.Lock.Threads.{System, waiting, finished, update}
use platform_backend.Dict.{get, has, put, pop}
use platform_backend.Core.ModelUtils.{partial_update_dict}
use platform_backend.Uc.{ok, unhandled}
use platform_backend.Flow.{Store}
use platform_backend.Flow.Sections.{
  Request, updates, deletes, Answer, nothing, section, delete_flow_section, update_flow_section,
}
use platform_backend.Flow.Concurrent.{arrived}
use platform_backend.Tests.Flows.{copying, stored, clearing}

-- Any thread makes its next access, or is answered.
data Step (s t : System Store Answer) : Type 0 where
  accesses :
      (i : ℕ) (change : Store → Store) (rest : Store → Section Store Answer)
      → s.threads i ≡ waiting (access change rest)
      → t ≡ record {
        store = change s.store;
        holder = none;
        threads = update i (waiting (rest s.store)) s.threads;
      }
      → Step s t
  leaves_with :
      (i : ℕ) (reply : Answer)
      → s.threads i ≡ waiting (leaves reply)
      → t ≡ record { store = s.store; holder = none; threads = update i (finished reply) s.threads }
      → Step s t

data Reach (s : System Store Answer) : System Store Answer → Type 0 where
  here : Reach s s
  next : {t u : System Store Answer} → Reach s t → Step t u → Reach s u

abbrev deletions : ℕ → Request
deletions i = deletes "flow_1"

-- Both threads find the flow before either deletes it.
key_error :
    (t : System Store Answer) × Reach (arrived copying deletions stored) t
    × (t.threads 1 ≡ finished (nothing unhandled))
unfolding section delete_flow_section has get pop
key_error = (
  _,
  next
      (next
        (next (next (next here (accesses 0 _ _ refl refl)) (accesses 1 _ _ refl refl))
          (accesses 0 _ _ refl refl))
        (accesses 1 _ _ refl refl))
      (leaves_with 1 _ refl refl),
  refl,
)

abbrev mixed : ℕ → Request
mixed zero = deletes "flow_1"
mixed (suc n) = updates "flow_1" clearing n

-- The update has read the flow before the deletion, and writes it after.
resurrected :
    (t : System Store Answer) × Reach (arrived copying mixed stored) t
    × (t.threads 0 ≡ finished (nothing (ok tt)))
    × (has "flow_1" t.store ≡ true)
unfolding section delete_flow_section update_flow_section has get put pop partial_update_dict
resurrected = (
  _,
  next
      (next
        (next
          (next (next (next here (accesses 1 _ _ refl refl)) (accesses 1 _ _ refl refl))
            (accesses 0 _ _ refl refl))
          (accesses 0 _ _ refl refl))
        (leaves_with 0 _ refl refl))
      (accesses 1 _ _ refl refl),
  refl,
  refl,
)
