-- ===== src/Store/Pool/Attempts.antt =====
-- What `NewPool` returns and has done, against a description of its attempts.
use trade_journal.Prelude.{
  ℕ, zero, suc, ◌+◌, ◌*◌, ◌≤◌, ◌≡◌, refl, Bool, true, false, arith, Option, none, some, Error,
  unavailable,
}
use trade_journal.Prelude.Search.{first_from, sum_before, sum_before-le}
use trade_journal.Prelude.Time.{second}
use trade_journal.Store.Pool.{
  Attempt, refused, silent, connected, Dial, Dialled, pool, failed, backoff, sleep, close, retry,
  new_pool,
}

abbrev pub is_connected : Attempt → Bool
is_connected connected = true
is_connected refused = false
is_connected silent = false

-- The pool that an attempt opens and closes, and the error of its `pgxpool.New`.
abbrev pub wasted : Attempt → ℕ
wasted silent = 1
wasted refused = 0
wasted connected = 0

abbrev pub error_of : Attempt → Option Error
error_of refused = some unavailable
error_of silent = none
error_of connected = none

abbrev pub or_failed : Option Error → Option ℕ → Dialled
or_failed e none = failed e
or_failed e (some i) = pool i

module _ (attempts : ℕ → Attempt) where
  abbrev pub succeeds : ℕ → Bool
  succeeds i = is_connected (attempts i)

  abbrev final_error : ℕ → ℕ → Option Error → Option Error
  final_error zero i e = e
  final_error (suc n) i e = final_error n (suc i) (error_of (attempts i))

  record Described (n i : ℕ) (e : Option Error) (d : Dial) (x : Dialled × Dial) : Type 0 where
    pub result : x.0 ≡ or_failed (final_error n i e) (first_from n i succeeds)
    pub slept : x.1.slept ≡ d.slept + sum_before n i succeeds (backoff (30 * second))
    pub closed : x.1.closed ≡ d.closed + sum_before n i succeeds (λ j. wasted (attempts j))

  round-Described :
      (n i : ℕ) (e : Option Error) (d : Dial)
      → ((e : Option Error) (d : Dial) → Described n (suc i) e d (retry n (suc i) attempts e d))
      → (a : Attempt) → attempts i ≡ a
      → Described (suc n) i e d (retry (suc n) i attempts e d)
  unfolding retry
  round-Described n i e d later refused h =
      let rest = later (some unavailable) (sleep i d) in
      record {
        result = rw (h, retry) rest.result;
        slept = rw (h, retry) (omega (arith, rest.slept));
        closed = rw (h, retry) (omega (arith, rest.closed));
      }
  round-Described n i e d later silent h =
      let rest = later none (sleep i (close d)) in
      record {
        result = rw (h, retry) rest.result;
        slept = rw (h, retry) (omega (arith, rest.slept));
        closed = rw (h, retry) (omega (arith, rest.closed));
      }
  round-Described n i e d later connected h = record {
    result = rw (h, retry) refl;
    slept = rw (h, retry) (omega arith);
    closed = rw (h, retry) (omega arith);
  }

  retry-Described :
      (n i : ℕ) (e : Option Error) (d : Dial) → Described n i e d (retry n i attempts e d)
  unfolding retry
  retry-Described zero i e d = record { result = refl; slept = omega arith; closed = omega arith }
  retry-Described (suc n) i e d =
      round-Described n i e d (retry-Described n (suc i)) (attempts i) refl

  -- What `NewPool` returns and has done.
  pub record IsDialled (x : Dialled × Dial) : Type 0 where
    pub result : x.0 ≡ or_failed (error_of (attempts 9)) (first_from 10 0 succeeds)
    pub slept : x.1.slept ≡ sum_before 10 0 succeeds (backoff (30 * second))
    pub slept_at_most : x.1.slept ≤ 181 * second
    pub closed : x.1.closed ≡ sum_before 10 0 succeeds (λ j. wasted (attempts j))

  -- NewPool returns the pool of the first of ten attempts that connects; it has slept 1, 2, 4, 8, 16
  -- and then 30 seconds after each attempt that failed, 181 seconds at most, and closed the pool of
  -- each that was opened and did not answer. If none connects it returns an error that wraps what
  -- the tenth `pgxpool.New` returned, which is nil if that attempt failed by its ping.
  pub new_pool-IsDialled : IsDialled (new_pool attempts)
  unfolding new_pool
  new_pool-IsDialled =
      let d = retry-Described 10 0 none (record { slept = 0; closed = 0 }) in
      let most = sum_before-le 10 0 succeeds (backoff (30 * second)) in
      record {
        result = d.result;
        slept = omega (arith, d.slept);
        slept_at_most = omega (arith, d.slept, most);
        closed = omega (arith, d.closed);
      }
