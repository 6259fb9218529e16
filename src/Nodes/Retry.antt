-- ===== src/Nodes/Retry.antt =====
-- The package `async-retry`, which packages/ddc/src/nodes/BalancedNode.ts calls, as an interface:
-- attempts are numbered from 1; a value or a bail ends the run, and a rejection ends it when no
-- retries are left.
pub mod Immediate
use Prim.Native.Nat.{pred}
use cere_ddc_sdk_js.Common.{
  ℕ, zero, suc, ◌+◌, ◌≤◌, ◌≡◌, refl, sym, ◌∙◌, ap, subst, Result, ok, err, arith,
}
use cere_ddc_sdk_js.Nodes.{Thrown}

-- How one attempt ends.
pub data Attempt (A : Type 0) : Type 0 where
  done : A → Attempt A
  thrown : Thrown → Attempt A
  bailed : Thrown → Attempt A

-- `run retries attempt body s`: the run from the attempt of that number on, with that many
-- retries left.
pub record RetryLibrary (S A : Type 0) : Type 0 where
  pub run : ℕ → ℕ → (ℕ → S → S × Attempt A) → S → S × Result Thrown A
  pub run_done :
      (retries n : ℕ) (body : ℕ → S → S × Attempt A) (s s' : S) (a : A)
      → body n s ≡ (s', done a)
      → run retries n body s ≡ (s', ok a)
  pub run_bailed :
      (retries n : ℕ) (body : ℕ → S → S × Attempt A) (s s' : S) (e : Thrown)
      → body n s ≡ (s', bailed e)
      → run retries n body s ≡ (s', err e)
  pub run_last :
      (n : ℕ) (body : ℕ → S → S × Attempt A) (s s' : S) (e : Thrown)
      → body n s ≡ (s', thrown e)
      → run 0 n body s ≡ (s', err e)
  pub run_again :
      (retries n : ℕ) (body : ℕ → S → S × Attempt A) (s s' : S) (e : Thrown)
      → body n s ≡ (s', thrown e)
      → run (suc retries) n body s ≡ run retries (suc n) body s'

-- A result is what the last attempt ended with.
abbrev pub Settles : {A : Type 0} → Attempt A → Result Thrown A → Type 0
Settles (done a) (ok b) = a ≡ b
Settles (thrown e) (err f) = e ≡ f
Settles (bailed e) (err f) = e ≡ f
Settles _ _ = ⊥

module _ {S A : Type 0} (body : ℕ → S → S × Attempt A) (Inv : ℕ → S → Type 0) where
  -- The last attempt of a run: its number, and the state before it.
  pub record Finished (limit : ℕ) (outcome : S × Result Thrown A) : Type 0 where
    pub number : ℕ
    pub within : number ≤ limit
    pub before : S
    pub inv : Inv number before
    pub state : (body number before).0 ≡ outcome.0
    pub settles : Settles (body number before).1 outcome.1
    pub exhausted : (e : Thrown) → (body number before).1 ≡ thrown e → number ≡ limit

  ended :
      (limit n : ℕ) (s : S) (end : Attempt A) (r : Result Thrown A)
      → (body n s).1 ≡ end
      → Inv n s
      → Settles end r
      → ((f : Thrown) → end ≡ thrown f → limit ≡ 0)
      → Finished (n + limit) ((body n s).0, r)
  ended limit n s end r e h t x = record {
    number = n;
    within = omega arith;
    before = s;
    inv = h;
    state = refl;
    settles = subst (λ last. Settles last r) (sym e) t;
    exhausted = λ f g. omega (arith, x f (sym e ∙ g));
  }

  later :
      (m n : ℕ) {outcome : S × Result Thrown A}
      → Finished (suc n + m) outcome
      → Finished (n + suc m) outcome
  later m n f = record {
    number = f.number;
    within = omega (arith, f.within);
    before = f.before;
    inv = f.inv;
    state = f.state;
    settles = f.settles;
    exhausted = λ e t. omega (arith, f.exhausted e t);
  }

  module _ (library : RetryLibrary S A)
      (keep : (n : ℕ) (s s' : S) (e : Thrown)
        → Inv n s
        → body n s ≡ (s', thrown e)
        → Inv (suc n) s') where
    -- One attempt; `again` is the run that follows it when a retry is left.
    finish :
        (retries n : ℕ) (s : S) (end : Attempt A)
        → Inv n s
        → (body n s).1 ≡ end
        → ((m : ℕ)
            → retries ≡ suc m
            → (e : Thrown) → body n s ≡ ((body n s).0, thrown e)
            → Finished (suc n + m) (library.run m (suc n) body (body n s).0))
        → Finished (n + retries) (library.run retries n body s)
    finish retries n s (done a) h e again =
        rw (library.run_done retries n body s (body n s).0 a (λ i. ((body n s).0, e i)))
          (ended _ n s _ _ e h refl (λ g t. cc))
    finish retries n s (bailed f) h e again =
        rw (library.run_bailed retries n body s (body n s).0 f (λ i. ((body n s).0, e i)))
          (ended _ n s _ _ e h refl (λ g t. cc))
    finish zero n s (thrown f) h e again =
        rw (library.run_last n body s (body n s).0 f (λ i. ((body n s).0, e i)))
          (ended _ n s _ _ e h refl (λ g t. refl))
    finish (suc m) n s (thrown f) h e again =
        let whole : body n s ≡ ((body n s).0, thrown f) = λ i. ((body n s).0, e i) in
        rw (library.run_again m n body s (body n s).0 f whole) (later m n (again m refl f whole))

    -- An invariant of the attempts that are rejected holds before the last attempt.
    pub run-Finished :
        (retries n : ℕ) (s : S) → Inv n s → Finished (n + retries) (library.run retries n body s)
    run-Finished zero n s h = finish zero n s (body n s).1 h refl (λ m e. absurd (omega arith))
    run-Finished (suc retries) n s h =
        finish (suc retries) n s (body n s).1 h refl (λ m same e whole.
          subst (λ k. Finished (suc n + k) (library.run k (suc n) body (body n s).0)) (ap pred same)
            (run-Finished retries (suc n) (body n s).0 (keep n s (body n s).0 e h whole)))
