-- ===== src/Treap/Scheduler/Counting.antt =====
-- The tokens before one pipe.
use contreap.Prelude.{
  ℕ, zero, suc, ◌+◌, ◌-◌, ◌≡◌, ◌<◌, ◌≤◌, inl, inr, refl, false, arith, ◌==◌, wrap, u64_mod,
  if◌then◌else◌,
}
use contreap.Treap.Scheduler.Machine.{PipePhase, fetching, waiting, holding, no_token}
use contreap.Treap.Scheduler.Protocol.{Counts}

pub Counts-behind : (a t : ℕ) (phase : PipePhase) (pos : ℕ) → Counts a t phase pos → pos ≤ a + 1
Counts-behind a t fetching pos (inl e) = omega arith
Counts-behind a t waiting pos (inl e) = omega arith
Counts-behind a t holding pos (inl e) = omega arith
Counts-behind a t phase pos (inr (_, _, e)) = omega arith

pub Counts-held : (a t pos : ℕ) → Counts a t holding pos → pos ≤ a
Counts-held a t pos (inl e) = omega arith
Counts-held a t pos (inr (_, e, _)) = cc

module _ (a : ℕ) (fits : a + 2 < u64_mod) where
  pub Counts-fetch :
      (t pos : ℕ)
      → 0 < pos
      → Counts a t fetching pos
      → Counts a (wrap (t + u64_mod - 1)) (if t == 0 then waiting else holding) pos
  Counts-fetch t pos started (inr (_, e, _)) = cc
  Counts-fetch zero pos started (inl e) = inr (refl, refl, omega arith)
  Counts-fetch (suc t) pos started (inl e) = inl (ground arith)

  pub Counts-wake :
      (t pos : ℕ) → (t == no_token) ≡ false → Counts a t waiting pos → Counts a t holding pos
  Counts-wake t pos ne (inl e) = inl e
  Counts-wake t pos ne (inr (e, _, _)) = absurd (ground arith)

  pub Counts-pass : (t pos : ℕ) → Counts a t holding pos → Counts a t fetching (pos + 1)
  Counts-pass t pos (inl e) = inl (omega arith)
  Counts-pass t pos (inr (_, e, _)) = cc

  -- One more task comes through the pipe before.
  pub Counts-arrive :
      (t : ℕ) (phase : PipePhase) (pos : ℕ)
      → Counts a t phase pos
      → Counts (a + 1) (wrap (t + 1)) phase pos
  Counts-arrive t phase pos (inl e) = inl (ground arith)
  Counts-arrive t phase pos (inr (e, w, next)) = inl (rw w (omega (arith, e, next)))
