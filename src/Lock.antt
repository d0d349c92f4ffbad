-- ===== src/Lock.antt =====
-- `threading.Lock` around the stores of UC and Flow: code under `with lock:`, one access at a time, and
-- the threads of the pool that run it.
pub mod Threads
pub mod Serial
pub mod Progress
pub mod Order
pub mod Replies
pub mod Race
use platform_backend.Prelude.{Option, none, some}

-- Code under the lock. An access maps the store to the one it leaves, and the rest of the code depends
-- on the store that it saw; at the end the block is left with a reply.
pub data Section (S A : Type 0) : Type 0 where
  leaves : A → Section S A
  access : (S → S) → (S → Section S A) → Section S A

module _ {S A : Type 0} where
  abbrev pub reads : (S → Section S A) → Section S A
  reads rest = access (λ s. s) rest

  abbrev pub writes : (S → S) → Section S A → Section S A
  writes change rest = access change (λ s. rest)

  -- `d[key]` and `d.pop(key)` raise a KeyError where the key is missing.
  abbrev pub item : {B : Type 0} → Option B → Section S A → (B → Section S A) → Section S A
  item none key_error rest = key_error
  item (some b) key_error rest = rest b

  -- The whole block, with nothing in between.
  abbrev pub run : Section S A → S → A × S
  run (leaves a) s = (a, s)
  run (access change rest) s = run (rest s) (change s)
