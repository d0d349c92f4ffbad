-- ===== src/Lock/Order.antt =====
-- Threads whose blocks do what `act` does in one step, as a sequence of such steps.
use mathlib.Core.Path.{subst}
use platform_backend.Prelude.{
  false, ℕ, ◌≡◌, ◌≢◌, refl, ◌∙◌, ap, inl, inr, false, none, List, [], ◌∷◌, ◌++◌, nat_eq, contains,
}
use platform_backend.Lock.{Section, run}
use platform_backend.Lock.Threads.{Thread, finished, System, Reach, here, next, start}
use platform_backend.Lock.Serial.{
  after, reply_of, Replied, Place, waits, holds, replied, IsSerial, Step-IsSerial, Reach-IsSerial,
}

module _ {S A : Type 0} (act : ℕ → S → A × S) (s0 : S) where
  -- The store that the threads of `past` leave one after the other; the latest comes first.
  abbrev pub served : List ℕ → S
  served [] = s0
  served (i ∷ past) = (act i (served past)).1

  abbrev pub answer : ℕ → List ℕ → A
  answer i past = (act i (served past)).0

  abbrev pub Answered : List ℕ → (ℕ → Thread S A) → Type 0
  Answered [] threads = Unit
  Answered (i ∷ past) threads =
      (threads i ≡ finished (answer i past)) × (contains i past ≡ false) × Answered past threads

  -- Exactly the threads of `past` have replies, those of the sequence; no thread is in it twice, and
  -- while the lock is free the store is the one that the sequence leaves.
  pub record IsOrdered (past : List ℕ) (s : System S A) : Type 0 where
    pub answered : Answered past s.threads
    pub unanswered : (j : ℕ) (a : A) → contains j past ≡ false → s.threads j ≢ finished a
    pub left : s.holder ≡ none → s.store ≡ served past

  module _ (code : ℕ → Section S A) (same : (i : ℕ) (s : S) → run (code i) s ≡ act i s) where
    after-served : (past : List ℕ) → after code s0 past ≡ served past
    after-served [] = refl
    after-served (i ∷ past) =
        ap (λ q. q.1) (same i (after code s0 past)) ∙ ap (λ s. (act i s).1) (after-served past)

    reply_of-answer : (i : ℕ) (past : List ℕ) → reply_of code s0 i past ≡ answer i past
    reply_of-answer i past =
        ap (λ q. q.0) (same i (after code s0 past)) ∙ ap (λ s. (act i s).0) (after-served past)

    Replied-Answered :
        (past : List ℕ) (threads : ℕ → Thread S A)
        → Replied code s0 past threads
        → Answered past threads
    Replied-Answered [] threads h = tt
    Replied-Answered (i ∷ past) threads (reply, fresh, h) = (
      reply ∙ ap (λ a. finished a) (reply_of-answer i past),
      fresh,
      Replied-Answered past threads h,
    )

    unanswered_outside :
        (s : System S A) (past : List ℕ) (j : ℕ) (a : A)
        → contains j past ≡ false
        → Place code s0 s past j
        → s.threads j ≢ finished a
    unanswered_outside s past j a fresh (waits w free _) h = cc
    unanswered_outside s past j a fresh (holds rest w held _ _) h = cc
    unanswered_outside s past j a fresh (replied reply w free listed) h = cc

    IsSerial-IsOrdered :
        (s : System S A) (past : List ℕ) → IsSerial code s0 s past → IsOrdered past s
    IsSerial-IsOrdered s past inv = record {
      answered = Replied-Answered past s.threads inv.replies;
      unanswered = λ j a fresh. unanswered_outside s past j a fresh (inv.place j);
      left = λ idle. inv.at_rest idle ∙ after-served past;
    }

    extends :
        (s t : System S A) (past : List ℕ)
        → Reach s t
        → IsSerial code s0 s past
        → (more : List ℕ) × IsSerial code s0 t (more ++ past)
    extends s t past here inv = ([], inv)
    extends s t past (next {t = u} r step) inv =
        let (more, now) = extends s u past r inv in
        let (later, serial, moved) = Step-IsSerial code s0 (more ++ past) step now in
        elim moved [
          | inl kept ↦ (more, subst (IsSerial code s0 t) kept serial)
          | inr (i, grown) ↦ (i ∷ more, subst (IsSerial code s0 t) grown serial)
        ]

    pub Reach-IsOrdered :
        (s t : System S A)
        → Reach (start code s0) s
        → Reach s t
        → (past more : List ℕ) × IsOrdered past s × IsOrdered (more ++ past) t
    Reach-IsOrdered s t r later =
        let (past, inv) = Reach-IsSerial code s0 s r in
        let (more, serial) = extends s t past later inv in
        (past, more, IsSerial-IsOrdered s past inv, IsSerial-IsOrdered t (more ++ past) serial)
