-- ===== src/Storage/Retries.antt =====
-- internal/storage/postgres_handler.go: what the loop of retries does.
use mathlib.Core.Option.{none-ne-some}
use goph_keeper.Base.{
  ◌≡◌, refl, sym, ap, ◌∙◌, ℕ, zero, suc, ◌+◌, ◌<◌, ◌⊎◌, inl, inr, Option, none, some, List, ◌∷◌,
  Text, text_eq, nat_eq, nat_beq_iff, codes, Outcome, ok, err, Error, wrapped, ping_failed,
  Option-cases, arith,
}
use goph_keeper.Storage.{
  Driver, Connections, release, open_postgres, open_with_retry, or_again, close, after_retries,
  opened, sleep,
}

add_zero : (n : ℕ) → n + 0 ≡ n
add_zero n = omega arith

add_suc : (n m : ℕ) → suc n + m ≡ n + suc m
add_suc n m = omega arith

pub release-head : (db : ℕ) (live : List ℕ) → release db (db ∷ live) ≡ live
unfolding release
release-head db live = rw ((nat_beq_iff db db).1 refl) refl

module _ (v : Driver) (dsn : Text) where
  -- The error of one attempt, if it fails.
  abbrev pub ping_error_of : ℕ → Option Error → Option Error
  ping_error_of k none = none
  ping_error_of k (some e) = some (elim (v.close_error k) [
    | none ↦ wrapped (codes "ping postgres") e
    | some c ↦ ping_failed e c
  ])

  abbrev pub error_of : ℕ → Option Error → Option Error
  error_of k (some e) = some (wrapped (codes "open postgres") e)
  error_of k none = ping_error_of k (v.ping_error k dsn)

  unfoldable pub attempt_error : ℕ → Option Error
  attempt_error k = error_of k (v.open_error k dsn)

  abbrev pub tried : Connections → Connections
  tried s = record s { attempts = suc s.attempts }

  abbrev pub attempted : Option Error → Connections → Outcome ℕ × Connections
  attempted none s = (ok s.attempts, opened s)
  attempted (some e) s = (err e, tried s)

  open_postgres_lem :
      (s : Connections) → open_postgres v dsn s ≡ attempted (attempt_error s.attempts) s
  unfolding open_postgres close attempt_error
  open_postgres_lem s = elim (Option-cases (v.open_error s.attempts dsn)) [
    | inr (e, h) ↦ rw h refl
    | inl h ↦ elim (Option-cases (v.ping_error s.attempts dsn)) [
      | inl h' ↦ rw (h, h') refl
      | inr (e, h') ↦ rw (h, h', release-head s.attempts s.live) refl
    ]
  ]

  -- The attempts from one on that all failed.
  abbrev pub AllFailed : ℕ → ℕ → Type 0
  AllFailed from n = (i : ℕ) → i < n → ¬ (attempt_error (from + i) ≡ none)

  abbrev pub last_error : Option Error → ℕ → ℕ → Option Error
  last_error last from zero = last
  last_error last from (suc n) = attempt_error (from + n)

  -- The state after attempts that failed, and after one that succeeded.
  abbrev pub after_failures : ℕ → Connections → Connections
  after_failures n s = record s { attempts = s.attempts + n; slept = s.slept + n }

  abbrev pub Retried : ℕ → Option Error → Connections → Type 0
  Retried n last s =
      ((m : ℕ) × (m < n)
        × AllFailed s.attempts m
        × (attempt_error (s.attempts + m) ≡ none)
        × (open_with_retry v dsn n last s ≡ (ok (s.attempts + m), opened (after_failures m s))))
      ⊎ (AllFailed s.attempts n
          × (open_with_retry v dsn n last s
              ≡ (err (after_retries (last_error last s.attempts n)), after_failures n s)))

  AllFailed-suc :
      (from n : ℕ) (e : Error)
      → attempt_error from ≡ some e
      → AllFailed (suc from) n
      → AllFailed from (suc n)
  AllFailed-suc from n e h failed zero below = rw (add_zero from, h) (λ x. none-ne-some e (sym x))
  AllFailed-suc from n e h failed (suc i) below = rw (sym (add_suc from i)) (failed i (omega arith))

  after_failures-suc :
      (n : ℕ) (s : Connections) → after_failures n (sleep (tried s)) ≡ after_failures (suc n) s
  after_failures-suc n s = rw (add_suc s.attempts n, add_suc s.slept n) refl

  after_failures-zero : (s : Connections) → after_failures 0 s ≡ s
  after_failures-zero s = rw (add_zero s.attempts, add_zero s.slept) refl

  last_error-suc :
      (n : ℕ) (last : Option Error) (from : ℕ) (e : Error)
      → attempt_error from ≡ some e
      → last_error (some e) (suc from) n ≡ last_error last from (suc n)
  last_error-suc zero last from e h = rw (add_zero from, h) refl
  last_error-suc (suc n) last from e h = ap (λ k. attempt_error k) (add_suc from n)

  -- One turn of the loop, given the error of the attempt.
  abbrev turn : ℕ → Option Error → Connections → Outcome ℕ × Connections
  turn n none s = (ok s.attempts, opened s)
  turn n (some e) s = open_with_retry v dsn n (some e) (sleep (tried s))

  open_with_retry-turn :
      (n : ℕ) (last : Option Error) (s : Connections)
      → open_with_retry v dsn (suc n) last s ≡ turn n (attempt_error s.attempts) s
  unfolding open_with_retry
  open_with_retry-turn n last s =
      ap (or_again v (λ e. open_with_retry v dsn n (some e))) (open_postgres_lem s)
      ∙ same (attempt_error s.attempts)
    where
      same :
          (e : Option Error)
          → or_again v (λ e. open_with_retry v dsn n (some e)) (attempted e s) ≡ turn n e s
      same none = refl
      same (some e) = refl

  open_with_retry-zero :
      (last : Option Error) (s : Connections)
      → open_with_retry v dsn zero last s ≡ (err (after_retries last), s)
  unfolding open_with_retry
  open_with_retry-zero last s = refl

  -- The loop of retries ends after at most as many attempts as it is given: it returns the
  -- connection of the first attempt that succeeds, with that connection added to the open ones and
  -- a second slept for each attempt before it, which all failed; or every attempt failed, none of
  -- them leaves a connection open, and the error wraps that of the last one.
  pub open_with_retry-Retried : (n : ℕ) (last : Option Error) (s : Connections) → Retried n last s
  open_with_retry-Retried zero last s =
      inr ((λ i h. absurd (omega arith)), rw (after_failures-zero s) (open_with_retry-zero last s))
  open_with_retry-Retried (suc n) last s = elim (Option-cases (attempt_error s.attempts)) [
    | inl h ↦ inl (
      0,
      omega arith,
      (λ i h. absurd (omega arith)),
      rw (add_zero s.attempts) h,
      rw (open_with_retry-turn n last s, h, add_zero s.attempts, add_zero s.slept) refl,
    )
    | inr (e, h) ↦ elim (open_with_retry-Retried n (some e) (sleep (tried s))) [
      | inl (m, below, failed, here, same) ↦ inl (
        suc m,
        omega arith,
        AllFailed-suc s.attempts m e h failed,
        rw (sym (add_suc s.attempts m)) here,
        rw (open_with_retry-turn n last s, h, same, add_suc s.attempts m, add_suc s.slept m) refl,
      )
      | inr (failed, same) ↦ inr (
        AllFailed-suc s.attempts n e h failed,
        rw (open_with_retry-turn n last s, h, same, last_error-suc n last s.attempts e h)
            (ap (λ t. (err (after_retries (last_error last s.attempts (suc n))), t))
              (after_failures-suc n s)),
      )
    ]
  ]
