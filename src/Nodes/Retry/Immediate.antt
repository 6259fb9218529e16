-- ===== src/Nodes/Retry/Immediate.antt =====
-- A library in the place of `async-retry`, which packages/ddc/src/nodes/BalancedNode.ts calls: one that
-- tries again at once, as a model of the interface.
use cere_ddc_sdk_js.Common.{ℕ, zero, suc, ◌≡◌, refl, Result, ok, err}
use cere_ddc_sdk_js.Nodes.{Thrown}
use cere_ddc_sdk_js.Nodes.Retry.{Attempt, done, thrown, bailed, RetryLibrary}

module _ {S A : Type 0} where
  abbrev pub after_attempt : (S → S × Result Thrown A) → S × Attempt A → S × Result Thrown A
  after_attempt again (s, done a) = (s, ok a)
  after_attempt again (s, bailed e) = (s, err e)
  after_attempt again (s, thrown e) = again s

  abbrev pub last_attempt : S × Attempt A → S × Result Thrown A
  last_attempt (s, done a) = (s, ok a)
  last_attempt (s, bailed e) = (s, err e)
  last_attempt (s, thrown e) = (s, err e)

  abbrev pub retry : ℕ → ℕ → (ℕ → S → S × Attempt A) → S → S × Result Thrown A
  retry zero n body s = last_attempt (body n s)
  retry (suc left) n body s = after_attempt (λ s'. retry left (suc n) body s') (body n s)

  pub retry_done :
      (retries n : ℕ) (body : ℕ → S → S × Attempt A) (s s' : S) (a : A)
      → body n s ≡ (s', done a)
      → retry retries n body s ≡ (s', ok a)
  retry_done zero n body s s' a e = rw (e) refl
  retry_done (suc left) n body s s' a e = rw (e) refl

  pub retry_bailed :
      (retries n : ℕ) (body : ℕ → S → S × Attempt A) (s s' : S) (e : Thrown)
      → body n s ≡ (s', bailed e)
      → retry retries n body s ≡ (s', err e)
  retry_bailed zero n body s s' a e = rw (e) refl
  retry_bailed (suc left) n body s s' a e = rw (e) refl

  abbrev pub library : RetryLibrary S A
  library = record {
    run = retry;
    run_done = retry_done;
    run_bailed = retry_bailed;
    run_last = λ n body s s' e h. rw (h) refl;
    run_again = λ left n body s s' e h. rw (h) refl;
  }
