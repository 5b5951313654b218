-- ===== src/Events/Retry.antt =====
-- The attempts at one message or batch (packages/events/src/consumer.ts, runWithInlineRetry).
use mathlib.Core.Path.{subst}
use xitter.Prelude.{ℕ, ◌≡◌, ◌⊎◌, inl, inr, sym, ap, ◌∙◌, Bool, true, false, arith}
use xitter.Events.{retry, run_with_inline_retry}

module _ {S : Type 0} (wait : ℕ → S → S) (handle : S → Bool × S) where
  -- The worlds in which the second and the third attempt begin.
  abbrev pub second : S → S
  second s = wait 500 (handle s).1

  abbrev pub third : S → S
  third s = wait 1000 (handle (second s)).1

  -- The handler is tried up to three times, with pauses of half a second and of a second, and no
  -- more once it resolves; it is given up only after the third attempt has thrown.
  pub run_with_inline_retry_lem :
      (s : S)
      → let r = run_with_inline_retry wait handle s in
        (((handle s).0 ≡ true) × (r ≡ handle s))
        ⊎ ((((handle s).0 ≡ false) × ((handle (second s)).0 ≡ true) × (r ≡ handle (second s)))
            ⊎ (((handle s).0 ≡ false) × ((handle (second s)).0 ≡ false) × (r ≡ handle (third s))))
  unfolding run_with_inline_retry retry
  run_with_inline_retry_lem s = ground arith

  -- What the handler and the pauses keep, a call with its retries keeps.
  pub run_with_inline_retry-keeps :
      (P : S → Type 0)
      → ((s : S) → P s → P (handle s).1)
      → ((ms : ℕ) (s : S) → P s → P (wait ms s))
      → (s : S) → P s
      → P (run_with_inline_retry wait handle s).1
  run_with_inline_retry-keeps P h w s p = elim (run_with_inline_retry_lem s) [
    | inl (a, e) ↦ subst (λ r. P r.1) (sym e) (h s p)
    | inr (inl (a, b, e)) ↦ subst (λ r. P r.1) (sym e) (h _ (w 500 _ (h s p)))
    | inr (inr (a, b, e)) ↦ subst (λ r. P r.1) (sym e) (h _ (w 1000 _ (h _ (w 500 _ (h s p)))))
  ]

  -- What the handler has done whenever it resolves, it has done when the call resolves.
  pub run_with_inline_retry-resolved :
      (Q : S → Type 0)
      → ((s : S) → (handle s).0 ≡ true → Q (handle s).1)
      → (s : S) → (run_with_inline_retry wait handle s).0 ≡ true
      → Q (run_with_inline_retry wait handle s).1
  run_with_inline_retry-resolved Q h s ok = elim (run_with_inline_retry_lem s) [
    | inl (a, e) ↦ subst (λ r. Q r.1) (sym e) (h s a)
    | inr (inl (a, b, e)) ↦ subst (λ r. Q r.1) (sym e) (h (second s) b)
    | inr (inr (a, b, e)) ↦ subst (λ r. Q r.1) (sym e) (h (third s) (sym (ap (λ r. r.0) e) ∙ ok))
  ]
