-- ===== src/Lock/Threads.antt =====
-- The threads that share a store and its lock, interleaved in any order.
use platform_backend.Prelude.{
  ℕ, ◌≡◌, ◌≢◌, refl, Option, none, some, ◌==◌, nat_eq, if◌then◌else◌, beq_self, beq_of_ne,
}
use platform_backend.Lock.{Section, leaves, access}

module _ (S A : Type 0) where
  -- A thread waits for the lock, is in its block, or has its reply.
  pub data Thread : Type 0 where
    waiting : Section S A → Thread
    inside : Section S A → Thread
    finished : A → Thread

  pub record System : Type 0 where
    pub store : S
    pub holder : Option ℕ
    pub threads : ℕ → Thread

module _ {S A : Type 0} where
  abbrev pub update : ℕ → Thread S A → (ℕ → Thread S A) → ℕ → Thread S A
  update i thread threads j = if i == j then thread else threads j

  pub update_self :
      (i : ℕ) (thread : Thread S A) (threads : ℕ → Thread S A) → update i thread threads i ≡ thread
  update_self i thread threads = rw (beq_self i) refl

  pub update_ne :
      {i j : ℕ} (thread : Thread S A) (threads : ℕ → Thread S A)
      → i ≢ j
      → update i thread threads j ≡ threads j
  update_ne {i} {j} thread threads h = rw (beq_of_ne i j h) refl

  -- `acquire` blocks while another thread holds the lock. A thread in its block goes on by itself, and
  -- leaving the block, by a return or an exception, releases the lock.
  pub data Step (s t : System S A) : Type 0 where
    acquires :
        (i : ℕ) (code : Section S A)
        → s.holder ≡ none
        → s.threads i ≡ waiting code
        → t
          ≡ record { store = s.store; holder = some i; threads = update i (inside code) s.threads }
        → Step s t
    accesses :
        (i : ℕ) (change : S → S) (rest : S → Section S A)
        → s.threads i ≡ inside (access change rest)
        → t ≡ record {
          store = change s.store;
          holder = s.holder;
          threads = update i (inside (rest s.store)) s.threads;
        }
        → Step s t
    releases :
        (i : ℕ) (reply : A)
        → s.threads i ≡ inside (leaves reply)
        → t
          ≡ record { store = s.store; holder = none; threads = update i (finished reply) s.threads }
        → Step s t

  pub data Reach (s : System S A) : System S A → Type 0 where
    here : Reach s s
    next : {t u : System S A} → Reach s t → Step t u → Reach s u

  pub finished_inj :
      (thread : Thread S A) {a b : A} → thread ≡ finished a → thread ≡ finished b → a ≡ b
  finished_inj thread h k = cc

  -- Every thread of the family waits.
  abbrev pub start : (ℕ → Section S A) → S → System S A
  start code s = record { store = s; holder = none; threads = λ i. waiting (code i) }
