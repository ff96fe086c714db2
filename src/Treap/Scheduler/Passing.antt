-- ===== src/Treap/Scheduler/Passing.antt =====
-- Tasks that have passed a pipe.
use contreap.Prelude.{
  ℕ, zero, suc, ◌+◌, ◌-◌, ◌≡◌, ◌<◌, ◌≤◌, inl, inr, refl, ◌∙◌, sym, ap, false, arith, ◌==◌, ==→eq,
  Bool-cases,
}
use mathlib.Core.Path.{subst}
use contreap.Treap.Scheduler.Task.{Context, st_running}
use contreap.Treap.Scheduler.Ghost.{Ghost}
use contreap.Treap.Scheduler.Settled.{AllDone}
use contreap.Treap.Scheduler.Machine.{Pipe, Collector, set_at}
use contreap.Treap.Scheduler.Protocol.{Beyond, Depths, Commits, arrived, Flow}
use contreap.Treap.Scheduler.Tokens.{arrived_step}

pub Beyond-weaken :
    (ctxs : ℕ → Context) (g : Ghost) (i k l : ℕ) → l ≤ k → Beyond ctxs g i k → Beyond ctxs g i l
Beyond-weaken ctxs g i k l le (inl is_done) = inl is_done
Beyond-weaken ctxs g i k l le (inr deep) = inr (omega arith)

pub Beyond-running :
    (ctxs : ℕ → Context) (g : Ghost) (i k : ℕ)
    → (ctxs i).st ≡ st_running
    → Beyond ctxs g i k
    → k ≤ g.depth i
Beyond-running ctxs g i k run (inl is_done) = let both : ⊥ = cc (is_done, run) in absurd both
Beyond-running ctxs g i k run (inr deep) = deep

pub AllDone-committed :
    (committed : ℕ) (ctxs : ℕ → Context) (c : Collector)
    → Commits committed ctxs c
    → AllDone ctxs committed
AllDone-committed committed ctxs c h j pos le = h.all_done j pos (omega (arith, h.local, h.ordered))

-- The pipe's phase does not matter for the tasks.
pub Depths-phase :
    (num_pipes issued : ℕ) (ctxs : ℕ → Context) (g : Ghost) (pipes : ℕ → Pipe) (id : ℕ) (p : Pipe)
    → p.pos ≡ (pipes id).pos
    → Depths num_pipes issued ctxs g pipes
    → Depths num_pipes issued ctxs g (set_at pipes id p)
Depths-phase num_pipes issued ctxs g pipes id p same d =
    let pos : (k : ℕ) → (set_at pipes id p k).pos ≡ (pipes k).pos = λ k.
      elim (Bool-cases (k == id)) [
        | inl e ↦ rw e (same ∙ ap (λ x. (pipes x).pos) (sym (==→eq k id e)))
        | inr e ↦ rw e refl
      ] in
    record {
      passed = λ k j posk lek posj lt. d.passed k j posk lek posj (omega (arith, pos k));
      before = λ k j posk lek lej le run. d.before k j posk lek (omega (arith, pos k)) le run;
    }

module _ (num_pipes num_tasks issued : ℕ) (pipes : ℕ → Pipe) (tokens : ℕ → ℕ) (submitted : ℕ)
    (flow : Flow num_pipes num_tasks issued pipes tokens submitted) where
  arrived_mono :
      (d k : ℕ) → k + d ≤ num_pipes → arrived issued pipes (k + d) ≤ arrived issued pipes k
  arrived_mono zero k le =
      let same : k ≡ k + 0 = omega arith in
      subst (λ x. arrived issued pipes x ≤ arrived issued pipes k) same (omega arith)
  arrived_mono (suc d) k le =
      let before = arrived_mono d k (omega arith) in
      let step =
        arrived_step num_pipes num_tasks issued pipes tokens submitted flow (k + d) (omega arith) in
      let same : k + d + 1 ≡ k + suc d = omega arith in
      subst (λ x. arrived issued pipes x ≤ arrived issued pipes k) same (omega arith)

  -- A task that has come through a pipe is behind the position of the pipe.
  pub arrived_pos :
      (k l : ℕ) → 0 < k → k ≤ l → l ≤ num_pipes → arrived issued pipes l < (pipes k).pos
  arrived_pos k l pos le lel =
      let mono = arrived_mono (l - k) k (omega arith) in
      let same : k + (l - k) ≡ l = omega arith in
      let down : arrived issued pipes l ≤ arrived issued pipes k =
        subst (λ x. arrived issued pipes x ≤ arrived issued pipes k) same mono in
      let later : (k == 0) ≡ false = ground arith in
      let down' : arrived issued pipes l ≤ (pipes k).pos - 1 = rw later at down in
      omega (arith, flow.started k)
