-- ===== src/Uc/Concurrent.antt =====
-- The user routes in a thread pool: any number of requests at once, interleaved access by access.
pub mod Consistent
pub mod Races
pub mod Deletions
pub mod Typed
pub mod Kept
pub mod Later
use platform_backend.Prelude.{
  ℕ, String, ◌≡◌, ◌≢◌, List, [], ◌∷◌, ◌++◌, Option, none, some, string_eq,
}
use platform_backend.Lock.{Section}
use platform_backend.Lock.Threads.{System, Reach, start, Thread, finished}
use platform_backend.Lock.Progress.{can_finish, joined}
use platform_backend.Lock.Order.{served, answer, IsOrdered, Reach-IsOrdered}
use platform_backend.Dict.{get}
use platform_backend.Core.ModelUtils.{Value}
use platform_backend.Core.ModelUtils.Conforms.{ModelCopy}
use platform_backend.UcApi.{UserResponse, UserField, field_name, attr}
use platform_backend.Uc.{Store}
use platform_backend.Uc.Sections.{Request, Answer, section, route}
use platform_backend.Uc.Serve.{run-section}

module _ (pydantic : ModelCopy UserResponse UserField field_name attr) (requests : ℕ → Request)
    (s0 : Store) where
  -- Each request waits in a thread of its own.
  abbrev pub arrived : System Store Answer
  arrived = start (λ i. section pydantic (requests i)) s0

  abbrev pub serves : ℕ → Store → Answer × Store
  serves i = route pydantic (requests i)

  -- However the threads of any user requests interleave, access by access, there is a sequence of the
  -- requests, each one whole route, of which exactly the threads in it have replies, those of the
  -- sequence; while the lock is free the store is the one that the sequence leaves. Whatever the
  -- threads do then, the sequence only grows at its late end, so a request that was answered first
  -- stays first.
  pub threads_serve_in_order :
      (s t : System Store Answer)
      → Reach arrived s
      → Reach s t
      → (past more : List ℕ) × IsOrdered serves s0 past s × IsOrdered serves s0 (more ++ past) t
  threads_serve_in_order s t r later =
      Reach-IsOrdered serves s0 (λ i. section pydantic (requests i))
        (λ i. run-section pydantic (requests i)) s t r later

  -- From every state that the threads of any user requests can reach, each thread can be answered:
  -- no request is stuck, and none can leave the lock held.
  pub thread_can_finish :
      (s : System Store Answer)
      → Reach arrived s
      → (i : ℕ)
      → (t : System Store Answer) × (reply : Answer) × Reach s t × (t.threads i ≡ finished reply)
  thread_can_finish s r i = can_finish (λ i. section pydantic (requests i)) s0 s r i
