-- ===== src/Crawler/Worker/Retry.antt =====
-- What the retry loop of src/crawler.rs returns.
use bip110_crawler.Common.{
  ℕ, zero, suc, ◌+◌, ◌≤◌, ◌<◌, ◌≡◌, ◌⊎◌, inl, inr, refl, subst, true, false, Bool-cases, ◌==◌,
  ==_iff, arith,
}
use bip110_crawler.Crawler.{CrawlConfig}
use bip110_crawler.Crawler.Worker.{Probe, should_retry, retry_loop, probe_with_retries}

-- `n` is the attempt whose outcome counts: all before it were worth a retry, and it is not, or it
-- is the last one allowed.
pub record Settles (attempt : ℕ → Probe) (first last n : ℕ) : Type 0 where
  pub from_first : first ≤ n
  pub in_budget : n ≤ last
  pub earlier_failed : (i : ℕ) → first ≤ i → i < n → should_retry (attempt i) ≡ true
  pub settled : (should_retry (attempt n) ≡ false) ⊎ (n ≡ last)

retry_loop-Settles :
    (left : ℕ) (attempt : ℕ → Probe) (n : ℕ)
    → (m : ℕ) × (retry_loop left attempt n ≡ (attempt m, m)) × Settles attempt n (n + left) m
unfolding retry_loop
retry_loop-Settles zero attempt n = (
  n,
  refl,
  record {
    from_first = omega arith;
    in_budget = omega arith;
    earlier_failed = λ i a b. absurd (omega arith);
    settled = inr (omega arith);
  },
)
retry_loop-Settles (suc left) attempt n = elim (Bool-cases (should_retry (attempt n))) [
  | inr e ↦ (
    n,
    rw (e, retry_loop) refl,
    record {
      from_first = omega arith;
      in_budget = omega arith;
      earlier_failed = λ i a b. absurd (omega arith);
      settled = inl e;
    },
  )
  | inl e ↦
      let (m, q, s) = retry_loop-Settles left attempt (n + 1) in
      (
        m,
        rw (e, retry_loop) q,
        record {
          from_first = omega (arith, s.from_first);
          in_budget = omega (arith, s.in_budget);
          earlier_failed = λ i a b. elim (Bool-cases (i == n)) [
            | inl h ↦ rw ((==_iff i n).0 h) e
            | inr h ↦ s.earlier_failed i (ground arith) b
          ];
          settled = elim s.settled [ inl f ↦ inl f | inr l ↦ inr (omega arith) ];
        },
      )
]

-- The probe of a peer ends with the first outcome that is not worth a retry, or with the last of
-- the `retries + 1` attempts; every attempt before it failed in a way that is worth a retry.
pub probe_with_retries-Settles :
    (cfg : CrawlConfig) (attempt : ℕ → Probe)
    → (n : ℕ) × (probe_with_retries cfg attempt ≡ attempt n) × Settles attempt 0 cfg.retries n
unfolding probe_with_retries
probe_with_retries-Settles cfg attempt =
    let (m, q, s) = retry_loop-Settles cfg.retries attempt 0 in
    (m, rw (q, probe_with_retries) refl, subst (λ (l : ℕ). Settles attempt 0 l m) (omega arith) s)
