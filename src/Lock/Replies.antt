-- ===== src/Lock/Replies.antt =====
-- The replies of threads and the sequence of their steps.
use platform_backend.Prelude.{
  ℕ, ◌≡◌, sym, ◌∙◌, ap, inl, inr, arith, true, false, Bool-cases, List, [], ◌∷◌, ◌++◌, nat_eq,
  contains,
}
use platform_backend.Lock.{Section}
use platform_backend.Lock.Threads.{
  Step, acquires, accesses, releases, update_ne, waiting, inside, Thread, finished, finished_inj,
  System, Reach, here, next,
}
use platform_backend.Lock.Serial.{listed_cons}
use platform_backend.Lock.Order.{answer, Answered, IsOrdered}

pub listed_append :
    (i : ℕ) (more past : List ℕ) → contains i past ≡ true → contains i (more ++ past) ≡ true
listed_append i [] past h = h
listed_append i (k ∷ more) past h = ground (arith, listed_append i more past h)

-- A reply is never taken back.
Step-keeps_reply :
    {S A : Type 0} {s t : System S A}
    → Step s t
    → (i : ℕ) (reply : A) → s.threads i ≡ finished reply
    → t.threads i ≡ finished reply
Step-keeps_reply {s = s} (acquires j code idle w e) i reply h =
    rw e (update_ne (inside code) s.threads (λ same. cc (same, w, h)) ∙ h)
Step-keeps_reply {s = s} (accesses j change rest w e) i reply h =
    rw e (update_ne (inside (rest s.store)) s.threads (λ same. cc (same, w, h)) ∙ h)
Step-keeps_reply {s = s} (releases j a w e) i reply h =
    rw e (update_ne (finished a) s.threads (λ same. cc (same, w, h)) ∙ h)

pub reply_stays :
    {S A : Type 0} {s t : System S A}
    → Reach s t
    → (i : ℕ) (reply : A) → s.threads i ≡ finished reply
    → t.threads i ≡ finished reply
reply_stays here i reply h = h
reply_stays (next r step) i reply h = Step-keeps_reply step i reply (reply_stays r i reply h)

module _ {S A : Type 0} (act : ℕ → S → A × S) (s0 : S) where
  -- What a reply of the sequence was computed from.
  pub data ComesFrom (threads : ℕ → Thread S A) (i : ℕ) (reply : A) : Type 0 where
    after_all :
        (before : List ℕ)
        → Answered act s0 before threads
        → contains i before ≡ false
        → answer act s0 i before ≡ reply
        → ComesFrom threads i reply

  listed-ComesFrom :
      (past : List ℕ) (threads : ℕ → Thread S A) (i : ℕ) (reply : A)
      → Answered act s0 past threads
      → contains i past ≡ true
      → threads i ≡ finished reply
      → ComesFrom threads i reply
  listed-ComesFrom [] threads i reply h listed e = cc
  listed-ComesFrom (j ∷ past) threads i reply (answered, out, h) listed e =
      elim (listed_cons i j past listed) [
        | inl same ↦ after_all past h (rw same out) (
            ap (λ k. answer act s0 k past) same
            ∙ finished_inj (threads j) answered (ap threads (sym same) ∙ e))
        | inr before ↦ listed-ComesFrom past threads i reply h before e
      ]

  -- Each reply is that of the thread's step after some of the others.
  pub reply-ComesFrom :
      (past : List ℕ) (s : System S A) (i : ℕ) (reply : A)
      → IsOrdered act s0 past s
      → s.threads i ≡ finished reply
      → ComesFrom s.threads i reply
  reply-ComesFrom past s i reply ordered e = elim (Bool-cases (contains i past)) [
    | inl listed ↦ listed-ComesFrom past s.threads i reply ordered.answered listed e
    | inr missed ↦ absurd (ordered.unanswered i reply missed e)
  ]

  listed-finished :
      (past : List ℕ) (threads : ℕ → Thread S A) (j : ℕ)
      → Answered act s0 past threads
      → contains j past ≡ true
      → (a : A) × (threads j ≡ finished a)
  listed-finished [] threads j h listed = cc
  listed-finished (i ∷ past) threads j (answered, out, h) listed =
      elim (listed_cons j i past listed) [
        | inl same ↦ (answer act s0 i past, ap threads same ∙ answered)
        | inr before ↦ listed-finished past threads j h before
      ]

  pub waiting-unlisted :
      (past : List ℕ) (s : System S A) (j : ℕ) (code : Section S A)
      → IsOrdered act s0 past s
      → s.threads j ≡ waiting code
      → contains j past ≡ false
  waiting-unlisted past s j code ordered idle = elim (Bool-cases (contains j past)) [
    | inl listed ↦
        let (a, done) = listed-finished past s.threads j ordered.answered listed in cc (idle, done)
    | inr fresh ↦ fresh
  ]

  pub reply-listed :
      (past : List ℕ) (s : System S A) (i : ℕ) (reply : A)
      → IsOrdered act s0 past s
      → s.threads i ≡ finished reply
      → contains i past ≡ true
  reply-listed past s i reply ordered e = elim (Bool-cases (contains i past)) [
    | inl listed ↦ listed
    | inr missed ↦ absurd (ordered.unanswered i reply missed e)
  ]

  -- A thread that is answered later than those of `past` has its step after all of them.
  pub late_reply :
      (more past : List ℕ) (threads : ℕ → Thread S A) (j : ℕ) (reply : A)
      → Answered act s0 (more ++ past) threads
      → contains j (more ++ past) ≡ true
      → contains j past ≡ false
      → threads j ≡ finished reply
      → (between : List ℕ) × Answered act s0 (between ++ past) threads
        × (contains j (between ++ past) ≡ false)
        × (answer act s0 j (between ++ past) ≡ reply)
  late_reply [] past threads j reply h listed fresh e = cc
  late_reply (k ∷ more) past threads j reply (answered, out, h) listed fresh e =
      elim (listed_cons j k (more ++ past) listed) [
        | inl same ↦ (
          more,
          h,
          rw same out,
          ap (λ m. answer act s0 m (more ++ past)) same
              ∙ finished_inj (threads k) answered (ap threads (sym same) ∙ e),
        )
        | inr before ↦ late_reply more past threads j reply h before fresh e
      ]
