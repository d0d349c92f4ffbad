-- ===== src/Tests/Retrying.antt =====
-- A retry loop that does what tenacity documents; `sleep` is what a wait does to the world.
use platform_backend.Prelude.{
  ℕ, zero, suc, ◌+◌, ◌-◌, ◌≤◌, ◌<◌, ◌≡◌, ◌⊎◌, inl, inr, refl, true, false, Bool, arith,
}
use platform_backend.Core.Client.{Raised, Result, ok, raised}
use platform_backend.Core.Client.Request.{Tenacity}

abbrev pub on_result : {A : Type 0} → (Raised → Bool) → Result A → Bool
on_result retry (ok a) = false
on_result retry (raised e) = retry e

module _ {W A : Type 0} (sleep : ℕ → ℕ → ℕ → W → W) where
  unfoldable pub loop : ℕ → ℕ → ℕ → (Raised → Bool) → (ℕ → W → Result A × W) → ℕ → W → Result A × W
  loop lo hi zero retry body n w = body n w
  loop lo hi (suc k) retry body n w = elim (on_result retry (body n w).0) [
    | true ↦ loop lo hi k retry body (n + 1) (sleep lo hi n (body n w).1)
    | false ↦ body n w
  ]

  unfoldable pub retrying :
      ℕ → ℕ → ℕ → (Raised → Bool) → (ℕ → W → Result A × W) → ℕ → W → Result A × W
  retrying stop lo hi retry body n w = loop lo hi (stop - n) retry body n w

  loop_stops :
      (lo hi k : ℕ) (retry : Raised → Bool) (body : (ℕ → W → Result A × W)) (n : ℕ) (w : W)
      → on_result retry (body n w).0 ≡ false
      → loop lo hi k retry body n w ≡ body n w
  unfolding loop
  loop_stops lo hi zero retry body n w h = refl
  loop_stops lo hi (suc k) retry body n w h = rw (h, loop) refl

  loop_again :
      (lo hi k : ℕ) (retry : Raised → Bool) (body : (ℕ → W → Result A × W)) (n : ℕ) (w : W)
      → on_result retry (body n w).0 ≡ true
      → loop lo hi (suc k) retry body n w
        ≡ loop lo hi k retry body (n + 1) (sleep lo hi n (body n w).1)
  unfolding loop
  loop_again lo hi k retry body n w h = rw (h, loop) refl

  loop_ends :
      (lo hi k : ℕ) (retry : Raised → Bool) (body : (ℕ → W → Result A × W)) (n : ℕ) (w : W)
      → k ≡ 0
      → loop lo hi k retry body n w ≡ body n w
  unfolding loop
  loop_ends lo hi zero retry body n w e = refl
  loop_ends lo hi (suc k) retry body n w e = absurd (omega arith)

  pub retrying-returns :
      (stop lo hi : ℕ) (retry : Raised → Bool) (body : (ℕ → W → Result A × W)) (n : ℕ) (w : W)
      (a : A)
      → (body n w).0 ≡ ok a
      → retrying stop lo hi retry body n w ≡ body n w
  unfolding retrying
  retrying-returns stop lo hi retry body n w a h =
      loop_stops lo hi (stop - n) retry body n w (rw h refl)

  pub retrying-raises :
      (stop lo hi : ℕ) (retry : Raised → Bool) (body : (ℕ → W → Result A × W)) (n : ℕ) (w : W)
      (e : Raised)
      → (body n w).0 ≡ raised e
      → (retry e ≡ false) ⊎ (stop ≤ n)
      → retrying stop lo hi retry body n w ≡ body n w
  unfolding retrying
  retrying-raises stop lo hi retry body n w e h (inl final) =
      loop_stops lo hi (stop - n) retry body n w (rw h final)
  retrying-raises stop lo hi retry body n w e h (inr last) =
      loop_ends lo hi (stop - n) retry body n w (omega arith)

  pub retrying-again :
      (stop lo hi : ℕ) (retry : Raised → Bool) (body : (ℕ → W → Result A × W)) (n : ℕ) (w : W)
      (e : Raised)
      → (body n w).0 ≡ raised e
      → retry e ≡ true
      → n < stop
      → retrying stop lo hi retry body n w
        ≡ retrying stop lo hi retry body (n + 1) (sleep lo hi n (body n w).1)
  unfolding retrying
  retrying-again stop lo hi retry body n w e h r lt =
      let k : stop - n ≡ suc (stop - (n + 1)) = omega arith in
      rw k (loop_again lo hi (stop - (n + 1)) retry body n w (rw h r))

  abbrev pub waiting_tenacity : Tenacity W A
  waiting_tenacity = record {
    sleep = sleep;
    retrying = retrying;
    returns = retrying-returns;
    raises = retrying-raises;
    tries_again = retrying-again;
  }

-- No time passes between the attempts.
unfoldable pub tenacity : {W A : Type 0} → Tenacity W A
unfolding retrying
tenacity = waiting_tenacity (λ lo hi n w. w)
