-- ===== src/Lock/Progress.antt =====
-- Which thread is in its block, and how the threads get on.
use platform_backend.Prelude.{
  ℕ, List, ◌≡◌, ◌≢◌, refl, sym, ◌∙◌, inl, inr, none, some, nat_eq, Option-cases, some_inj,
}
use platform_backend.Lock.{Section, leaves, access}
use platform_backend.Lock.Threads.{
  waiting, inside, finished, System, update, update_self, update_ne, Step, acquires, accesses,
  releases, Reach, here, next, start,
}
use platform_backend.Lock.Serial.{Place, waits, holds, replied, of_inside, Reach-IsSerial}

module _ {S A : Type 0} where
  pub first : {s t u : System S A} → Step s t → Reach t u → Reach s u
  first step here = next here step
  first step (next r last) = next (first step r) last

  pub joined : {s t u : System S A} → Reach s t → Reach t u → Reach s u
  joined r here = r
  joined r (next later last) = next (joined r later) last

  -- Thread `i` has its reply, the lock is free, and no other thread has moved.
  pub record IsDone (i : ℕ) (s t : System S A) : Type 0 where
    pub free : t.holder ≡ none
    pub reply : A
    pub has_reply : t.threads i ≡ finished reply
    pub others : (j : ℕ) → i ≢ j → t.threads j ≡ s.threads j

  abbrev moved_on : (S → S) → (S → Section S A) → ℕ → System S A → System S A
  moved_on change rest i s = record {
    store = change s.store;
    holder = s.holder;
    threads = update i (inside (rest s.store)) s.threads;
  }

  abbrev entered : Section S A → ℕ → System S A → System S A
  entered p i s = record {
    store = s.store;
    holder = some i;
    threads = update i (inside p) s.threads;
  }

  -- The thread that holds the lock can run its block to the end.
  pub drain :
      (p : Section S A) (i : ℕ) (s : System S A)
      → s.threads i ≡ inside p
      → s.holder ≡ some i
      → (t : System S A) × Reach s t × IsDone i s t
  drain (leaves reply) i s w held = (
    record { store = s.store; holder = none; threads = update i (finished reply) s.threads },
    next here (releases i reply w refl),
    record {
      free = refl;
      reply = reply;
      has_reply = update_self i (finished reply) s.threads;
      others = λ j apart. update_ne (finished reply) s.threads apart;
    },
  )
  drain (access change rest) i s w held =
      let moved = moved_on change rest i s in
      let (t, r, done) =
        drain (rest s.store) i moved (update_self i (inside (rest s.store)) s.threads) held in
      (
        t,
        first (accesses i change rest w refl) r,
        record {
          free = done.free;
          reply = done.reply;
          has_reply = done.has_reply;
          others =
              λ j apart. done.others j apart ∙ update_ne (inside (rest s.store)) s.threads apart;
        },
      )

  -- A waiting thread can take a free lock and run its block to the end.
  pub serve :
      (p : Section S A) (i : ℕ) (s : System S A)
      → s.threads i ≡ waiting p
      → s.holder ≡ none
      → (t : System S A) × Reach s t × IsDone i s t
  serve p i s w idle =
      let (t, r, done) = drain p i (entered p i s) (update_self i (inside p) s.threads) refl in
      (
        t,
        first (acquires i p idle w refl) r,
        record {
          free = done.free;
          reply = done.reply;
          has_reply = done.has_reply;
          others = λ j apart. done.others j apart ∙ update_ne (inside p) s.threads apart;
        },
      )

module _ {S A : Type 0} (code : ℕ → Section S A) (s0 : S) (s : System S A)
    (r : Reach (start code s0) s) where
  waiting-not_inside :
      (j : ℕ) (p q : Section S A) → s.threads j ≡ waiting p → ¬ (s.threads j ≡ inside q)
  waiting-not_inside j p q w v = cc

  -- Two threads that are in their blocks are one.
  pub mutual_exclusion :
      (i j : ℕ) (p q : Section S A) → s.threads i ≡ inside p → s.threads j ≡ inside q → i ≡ j
  mutual_exclusion i j p q w v =
      let (past, inv) = Reach-IsSerial code s0 s r in
      some_inj (
        sym (of_inside code s0 s past i p w (inv.place i)).0
        ∙ (of_inside code s0 s past j q v (inv.place j)).0)

  holder-inside :
      (past : List ℕ) (i : ℕ)
      → s.holder ≡ some i
      → Place code s0 s past i
      → (p : Section S A) × (s.threads i ≡ inside p)
  holder-inside past i held (waits w free fresh) = absurd (free held)
  holder-inside past i held (holds rest w own fresh same) = (rest, w)
  holder-inside past i held (replied reply w free listed) = absurd (free held)

  -- The lock can always become free, and no thread that waits moves until then.
  released :
      (t : System S A) × Reach s t
      × (t.holder ≡ none)
      × ((j : ℕ) (p : Section S A) → s.threads j ≡ waiting p → t.threads j ≡ waiting p)
  released = elim (Option-cases s.holder) [
    | inl idle ↦ (s, here, idle, λ j p w. w)
    | inr (i, held) ↦
        let (past, inv) = Reach-IsSerial code s0 s r in
        let (q, v) = holder-inside past i held (inv.place i) in
        let (t, later, done) = drain q i s v held in
        (
          t,
          later,
          done.free,
          λ j p w. done.others j (λ same. waiting-not_inside j p q w (rw (← same) v)) ∙ w,
        )
  ]

  finish :
      (past : List ℕ) (j : ℕ)
      → Place code s0 s past j
      → (t : System S A) × (reply : A) × Reach s t × (t.threads j ≡ finished reply)
  finish past j (waits w free fresh) =
      let (t, r1, idle, keeps) = released in
      let (u, r2, done) = serve (code j) j t (keeps j (code j) w) idle in
      (u, done.reply, joined r1 r2, done.has_reply)
  finish past j (holds rest w held fresh same) =
      let (u, r2, done) = drain rest j s w held in (u, done.reply, r2, done.has_reply)
  finish past j (replied reply w free listed) = (s, reply, here, w)

  pub can_finish :
      (j : ℕ) → (t : System S A) × (reply : A) × Reach s t × (t.threads j ≡ finished reply)
  can_finish j = let (past, inv) = Reach-IsSerial code s0 s r in finish past j (inv.place j)
