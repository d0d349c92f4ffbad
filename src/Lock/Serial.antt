-- ===== src/Lock/Serial.antt =====
-- Interleavings under the lock as sequences of whole blocks, in the order of their releases.
use mathlib.Core.Path.{subst}
use platform_backend.Prelude.{
  ℕ, ◌≡◌, ◌≢◌, refl, sym, ap, ◌∙◌, ◌⊎◌, inl, inr, true, false, Option, none, some, List, [], ◌∷◌,
  ◌==◌, nat_eq, nat_beq_iff, arith, contains, Bool-cases, beq_self, beq_of_ne, ne_of_beq,
  none-ne-some, some_inj,
}
use platform_backend.Lock.{Section, leaves, access, run}
use platform_backend.Lock.Threads.{
  Thread, waiting, inside, finished, System, update, update_self, update_ne, Step, acquires,
  accesses, releases, Reach, here, next, start,
}

pub listed_cons :
    (j i : ℕ) (past : List ℕ) → contains j (i ∷ past) ≡ true → (j ≡ i) ⊎ (contains j past ≡ true)
listed_cons j i past h = ground (arith, nat_beq_iff j i)

pub unlisted_cons :
    (j i : ℕ) (past : List ℕ) → contains j (i ∷ past) ≡ false → (j ≢ i) × (contains j past ≡ false)
unlisted_cons j i past h = ground (arith, nat_beq_iff j i)

module _ {S A : Type 0} (code : ℕ → Section S A) (s0 : S) where
  -- The store after the blocks of `past`, which has the latest thread first.
  abbrev pub after : List ℕ → S
  after [] = s0
  after (i ∷ past) = (run (code i) (after past)).1

  -- The reply of thread `i` after those of `past`.
  abbrev pub reply_of : ℕ → List ℕ → A
  reply_of i past = (run (code i) (after past)).0

  abbrev pub Replied : List ℕ → (ℕ → Thread S A) → Type 0
  Replied [] threads = Unit
  Replied (i ∷ past) threads =
      (threads i ≡ finished (reply_of i past)) × (contains i past ≡ false) × Replied past threads

  -- What a thread does while those of `past` have released the lock.
  pub data Place (s : System S A) (past : List ℕ) (j : ℕ) : Type 0 where
    waits :
        s.threads j ≡ waiting (code j)
        → s.holder ≢ some j
        → contains j past ≡ false
        → Place s past j
    holds :
        (rest : Section S A)
        → s.threads j ≡ inside rest
        → s.holder ≡ some j
        → contains j past ≡ false
        → run rest s.store ≡ run (code j) (after past)
        → Place s past j
    replied :
        (reply : A)
        → s.threads j ≡ finished reply
        → s.holder ≢ some j
        → contains j past ≡ true
        → Place s past j

  pub record IsSerial (s : System S A) (past : List ℕ) : Type 0 where
    pub place : (j : ℕ) → Place s past j
    pub replies : Replied past s.threads
    pub at_rest : s.holder ≡ none → s.store ≡ after past

  start-IsSerial : IsSerial (start code s0) []
  start-IsSerial = record {
    place = λ j. waits refl none-ne-some refl;
    replies = tt;
    at_rest = λ h. refl;
  }

  finished-ne-inside : {a : A} {p : Section S A} → finished a ≢ inside p
  finished-ne-inside h = cc

  inside_inj :
      (thread : Thread S A) {p q : Section S A} → thread ≡ inside p → thread ≡ inside q → p ≡ q
  inside_inj thread h k = cc

  -- The thread that is in its block, and only that, holds the lock.
  pub of_inside :
      (s : System S A) (past : List ℕ) (i : ℕ) (p : Section S A)
      → s.threads i ≡ inside p
      → Place s past i
      → (s.holder ≡ some i)
        × (contains i past ≡ false)
        × (run p s.store ≡ run (code i) (after past))
  of_inside s past i p e (waits w free fresh) = cc
  of_inside s past i p e (holds rest w held fresh same) =
      (held, fresh, ap (λ q. run q s.store) (inside_inj (s.threads i) e w) ∙ same)
  of_inside s past i p e (replied reply w free listed) = cc

  of_waiting :
      (s : System S A) (past : List ℕ) (i : ℕ) (p : Section S A)
      → s.threads i ≡ waiting p
      → Place s past i
      → (p ≡ code i) × (contains i past ≡ false)
  of_waiting s past i p e (waits w free fresh) = (cc, fresh)
  of_waiting s past i p e (holds rest w held fresh same) = cc
  of_waiting s past i p e (replied reply w free listed) = cc

  -- A thread that has no reply yet does not count among the replies.
  Replied-update :
      (past : List ℕ) (threads : ℕ → Thread S A) (i : ℕ) (thread : Thread S A)
      → contains i past ≡ false
      → Replied past threads
      → Replied past (update i thread threads)
  Replied-update [] threads i thread fresh h = tt
  Replied-update (j ∷ past) threads i thread fresh (reply, apart, h) =
      let (other, rest) = unlisted_cons i j past fresh in
      (update_ne thread threads other ∙ reply, apart, Replied-update past threads i thread rest h)

  module _ (s : System S A) (past : List ℕ) (inv : IsSerial s past) where
    -- The place of each thread in a new state, from that of the thread that moved.
    moved_threads :
        (t : System S A) (past' : List ℕ) (i : ℕ)
        → Place t past' i
        → ((j : ℕ) → i ≢ j → Place s past j → Place t past' j)
        → (j : ℕ) → Place t past' j
    moved_threads t past' i here_place others j = elim (Bool-cases (i == j)) [
      | inl same ↦ subst (Place t past') ((nat_beq_iff i j).0 same) here_place
      | inr apart ↦ others j (ne_of_beq i j apart) (inv.place j)
    ]

    abbrev acquired : ℕ → Section S A → System S A
    acquired i p = record {
      store = s.store;
      holder = some i;
      threads = update i (inside p) s.threads;
    }

    acquires-others :
        (i : ℕ) (p : Section S A)
        → s.holder ≡ none
        → (j : ℕ) → i ≢ j
        → Place s past j
        → Place (acquired i p) past j
    acquires-others i p idle j apart (waits w free fresh) =
        waits (update_ne (inside p) s.threads apart ∙ w) (λ h. apart (some_inj h)) fresh
    acquires-others i p idle j apart (holds rest w held fresh same) =
        absurd (none-ne-some (sym idle ∙ held))
    acquires-others i p idle j apart (replied reply w free listed) =
        replied reply (update_ne (inside p) s.threads apart ∙ w) (λ h. apart (some_inj h)) listed

    acquires-IsSerial :
        (i : ℕ) (p : Section S A)
        → s.holder ≡ none
        → s.threads i ≡ waiting p
        → IsSerial (acquired i p) past
    acquires-IsSerial i p idle w =
        let (own, fresh) = of_waiting s past i p w (inv.place i) in
        record {
          place =
              moved_threads (acquired i p) past i
                (holds p (update_self i (inside p) s.threads) refl fresh
                  (ap (λ q. run q s.store) own ∙ ap (run (code i)) (inv.at_rest idle)))
                (acquires-others i p idle);
          replies = Replied-update past s.threads i (inside p) fresh inv.replies;
          at_rest = λ h. absurd (none-ne-some (sym h));
        }

    -- While thread `i` holds the lock no other thread is in its block.
    abbrev moved : S → Option ℕ → ℕ → Thread S A → System S A
    moved store holder i thread = record {
      store = store;
      holder = holder;
      threads = update i thread s.threads;
    }

    moved-others :
        (store : S) (holder : Option ℕ) (past' : List ℕ) (i : ℕ) (thread : Thread S A)
        → s.holder ≡ some i
        → ((j : ℕ) → i ≢ j → holder ≢ some j)
        → ((j : ℕ) → i ≢ j → contains j past' ≡ contains j past)
        → (j : ℕ) → i ≢ j
        → Place s past j
        → Place (moved store holder i thread) past' j
    moved-others store holder past' i thread held free_of same_past j apart (waits w free fresh) =
        waits (update_ne thread s.threads apart ∙ w) (free_of j apart) (same_past j apart ∙ fresh)
    moved-others store holder past' i thread held free_of same_past j apart
          (holds rest w other fresh same) =
        absurd (apart (some_inj (sym held ∙ other)))
    moved-others store holder past' i thread held free_of same_past j apart
          (replied reply w free listed) =
        replied reply (update_ne thread s.threads apart ∙ w) (free_of j apart)
          (same_past j apart ∙ listed)

    accesses-IsSerial :
        (i : ℕ) (change : S → S) (rest : S → Section S A)
        → s.threads i ≡ inside (access change rest)
        → IsSerial (moved (change s.store) s.holder i (inside (rest s.store))) past
    accesses-IsSerial i change rest w =
        let (held, fresh, same) = of_inside s past i (access change rest) w (inv.place i) in
        record {
          place =
              moved_threads (moved (change s.store) s.holder i (inside (rest s.store))) past i
                (holds (rest s.store) (update_self i (inside (rest s.store)) s.threads) held fresh
                  same)
                (moved-others (change s.store) s.holder past i (inside (rest s.store)) held
                  (λ j apart h. apart (some_inj (sym held ∙ h))) (λ j apart. refl));
          replies = Replied-update past s.threads i (inside (rest s.store)) fresh inv.replies;
          at_rest = λ h. absurd (none-ne-some (sym h ∙ held));
        }

    releases-IsSerial :
        (i : ℕ) (reply : A)
        → s.threads i ≡ inside (leaves reply)
        → IsSerial (moved s.store none i (finished reply)) (i ∷ past)
    releases-IsSerial i reply w =
        let (held, fresh, same) = of_inside s past i (leaves reply) w (inv.place i) in
        record {
          place =
              moved_threads (moved s.store none i (finished reply)) (i ∷ past) i
                (replied reply (update_self i (finished reply) s.threads) none-ne-some
                  (rw (beq_self i) refl))
                (moved-others s.store none (i ∷ past) i (finished reply) held
                  (λ j apart. none-ne-some)
                  (λ j apart. rw (beq_of_ne j i (λ h. apart (sym h))) refl));
          replies = (
            update_self i (finished reply) s.threads ∙ ap (λ q. finished q.0) same,
            fresh,
            Replied-update past s.threads i (finished reply) fresh inv.replies,
          );
          at_rest = λ h. ap (λ q. q.1) same;
        }

  -- A step keeps the order, or puts the thread that releases the lock at its end.
  pub Step-IsSerial :
      {s t : System S A} (past : List ℕ)
      → Step s t
      → IsSerial s past
      → (past' : List ℕ) × IsSerial t past' × ((past' ≡ past) ⊎ ((i : ℕ) × (past' ≡ i ∷ past)))
  Step-IsSerial {s} past (acquires i p idle w e) inv = (
    past,
    subst (λ t. IsSerial t past) (sym e) (acquires-IsSerial s past inv i p idle w),
    inl refl,
  )
  Step-IsSerial {s} past (accesses i change rest w e) inv = (
    past,
    subst (λ t. IsSerial t past) (sym e) (accesses-IsSerial s past inv i change rest w),
    inl refl,
  )
  Step-IsSerial {s} past (releases i reply w e) inv = (
    i ∷ past,
    subst (λ t. IsSerial t (i ∷ past)) (sym e) (releases-IsSerial s past inv i reply w),
    inr (i, refl),
  )

  pub Reach-IsSerial :
      (s : System S A) → Reach (start code s0) s → (past : List ℕ) × IsSerial s past
  Reach-IsSerial s here = ([], start-IsSerial)
  Reach-IsSerial s (next {t} r step) =
      let (past, inv) = Reach-IsSerial t r in
      let (later, serial, _) = Step-IsSerial past step inv in (later, serial)
