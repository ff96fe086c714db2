-- ===== src/Treap/Scheduler/Tokens.antt =====
-- The tokens: no pipe takes a task that has not come through the pipe before it.
use contreap.Prelude.{
  ℕ, zero, suc, ◌+◌, ◌-◌, ◌≡◌, ◌<◌, ◌≤◌, ◌≢◌, ◌⊎◌, inl, inr, refl, ◌∙◌, sym, ap, true, false, arith,
  ==→eq, ◌==◌, Bool-cases, wrap, u64_mod, if◌then◌else◌,
}
use mathlib.Core.Path.{subst}
use contreap.Treap.Scheduler.Machine.{Pipe, fetching, waiting, holding, set_at, add_token, no_token}
use contreap.Treap.Scheduler.Protocol.{arrived, Counts, Flow}
use contreap.Treap.Scheduler.Counting.{
  Counts-behind, Counts-fetch, Counts-wake, Counts-pass, Counts-arrive,
}

module _ (num_pipes num_tasks issued : ℕ) (pipes : ℕ → Pipe) (tokens : ℕ → ℕ) (submitted : ℕ)
    (flow : Flow num_pipes num_tasks issued pipes tokens submitted) where
  -- A task that has come through a pipe has come through the pipe before it.
  pub arrived_step : (k : ℕ) → k < num_pipes → arrived issued pipes (k + 1) ≤ arrived issued pipes k
  arrived_step k lt =
      let behind =
        Counts-behind (arrived issued pipes k) (tokens k) (pipes (k + 1)).phase (pipes (k + 1)).pos
          (flow.balance k lt) in
      let later : (k + 1 == 0) ≡ false = ground arith in rw later (omega arith)

  pub arrived_le : (k : ℕ) → k ≤ num_pipes → arrived issued pipes k ≤ issued
  arrived_le zero le = omega arith
  arrived_le (suc k) le =
      let before = arrived_le k (omega arith) in
      let step = arrived_step k (omega arith) in
      let same : k + 1 ≡ suc k = omega arith in
      subst (λ x. arrived issued pipes x ≤ issued) same (omega arith)

  -- One pipe moves on, and with it the tokens before and behind it.
  pub Flow-pipe :
      (id : ℕ) (p : Pipe) (tokens' : ℕ → ℕ)
      → 0 < id
      → 0 < p.pos
      → Counts (arrived issued pipes (id - 1)) (tokens' (id - 1)) p.phase p.pos
      → (id < num_pipes
          → Counts (p.pos - 1) (tokens' id) (pipes (id + 1)).phase (pipes (id + 1)).pos)
      → ((k : ℕ) → k + 1 ≢ id → k ≢ id → tokens' k ≡ tokens k)
      → tokens' num_pipes + submitted ≡ arrived issued (set_at pipes id p) num_pipes
      → Flow num_pipes num_tasks issued (set_at pipes id p) tokens' submitted
  Flow-pipe id p tokens' pos started here next other last = record {
    issued_le = flow.issued_le;
    started =
        λ k. elim (Bool-cases (k == id)) [ inl e ↦ rw e started | inr e ↦ rw e (flow.started k) ];
    balance = λ k lt. elim (Bool-cases (k + 1 == id)) [
      | inl e ↦
          let not_id : (k == id) ≡ false = ground arith in
          let same : id - 1 ≡ k = ground arith in
          rw (not_id, e)
            (subst (λ x. Counts (arrived issued pipes x) (tokens' x) p.phase p.pos) same here)
      | inr e ↦ elim (Bool-cases (k == id)) [
        | inl is_id ↦
            let same = ==→eq k id is_id in
            let later : (k == 0) ≡ false = ground arith in
            rw (e, is_id, later)
              (subst (λ x. Counts (p.pos - 1) (tokens' x) (pipes (x + 1)).phase (pipes (x + 1)).pos)
                (sym same) (next (omega (arith, same))))
        | inr not_id ↦
            let kept = other k (ground arith) (ground arith) in
            rw (e, not_id, kept) (flow.balance k lt)
      ]
    ];
    last = last;
  }

  pub before_pipe :
      (id : ℕ)
      → 0 < id
      → id ≤ num_pipes
      → Counts (arrived issued pipes (id - 1)) (tokens (id - 1)) (pipes id).phase (pipes id).pos
  before_pipe id pos le =
      let same : id - 1 + 1 ≡ id = omega arith in
      subst
        (λ x.
          Counts (arrived issued pipes (id - 1)) (tokens (id - 1)) (pipes x).phase (pipes x).pos)
        same (flow.balance (id - 1) (omega arith))

  behind_pipe :
      (id : ℕ)
      → 0 < id
      → id < num_pipes
      → Counts ((pipes id).pos - 1) (tokens id) (pipes (id + 1)).phase (pipes (id + 1)).pos
  behind_pipe id pos lt =
      let later : (id == 0) ≡ false = ground arith in rw later at (flow.balance id lt)

  module _ (fits : num_tasks + 2 < u64_mod) (id : ℕ) (pos : 0 < id) (le : id ≤ num_pipes) where
    fits_before : arrived issued pipes (id - 1) + 2 < u64_mod
    fits_before = omega (arith, arrived_le (id - 1) (omega arith), flow.issued_le)

    fits_pos : (pipes id).pos - 1 + 2 < u64_mod
    fits_pos =
        let later : (id == 0) ≡ false = ground arith in
        let before : (pipes id).pos - 1 ≤ issued = rw later at (arrived_le id le) in
        omega (arith, flow.issued_le)

    -- What has come through the last pipe, when a pipe moves on.
    arrived-set_at :
        (p : Pipe)
        → ((num_pipes ≡ id)
            × (arrived issued (set_at pipes id p) num_pipes ≡ p.pos - 1)
            × (arrived issued pipes num_pipes ≡ (pipes id).pos - 1))
          ⊎ ((num_pipes ≢ id)
              × (arrived issued (set_at pipes id p) num_pipes ≡ arrived issued pipes num_pipes))
    arrived-set_at p = elim (Bool-cases (num_pipes == id)) [
      | inl e ↦
          let same = ==→eq num_pipes id e in
          let later : (num_pipes == 0) ≡ false = ground arith in
          inl (same, rw (later, e) refl, rw later (ap (λ x. (pipes x).pos - 1) same))
      | inr e ↦ inr (ground arith, rw e refl)
    ]

    last_same :
        (p : Pipe)
        → p.pos ≡ (pipes id).pos
        → tokens num_pipes + submitted ≡ arrived issued (set_at pipes id p) num_pipes
    last_same p same = elim (arrived-set_at p) [
      | inl (_, after, before) ↦ omega (arith, after, before, same, flow.last)
      | inr (_, after) ↦ flow.last ∙ sym after
    ]

    pub Flow-fetch :
        (pipes id).phase ≡ fetching
        → (let token = tokens (id - 1) in
            Flow num_pipes num_tasks issued
              (set_at pipes id
                (record { pos = (pipes id).pos; phase = if token == 0 then waiting else holding }))
              (set_at tokens (id - 1) (wrap (token + u64_mod - 1)))
              submitted)
    Flow-fetch phase =
        let self : (id - 1 == id - 1) ≡ true = ground arith in
        let not_before : (id == id - 1) ≡ false = ground arith in
        Flow-pipe id _ _ pos (flow.started id)
          (rw self (
            Counts-fetch (arrived issued pipes (id - 1)) fits_before (tokens (id - 1))
              (pipes id).pos (flow.started id) (rw phase at (before_pipe id pos le))))
          (λ lt. rw not_before (behind_pipe id pos lt))
          (λ k e f. let other : (k == id - 1) ≡ false = ground arith in rw other refl)
          (let other : (num_pipes == id - 1) ≡ false = ground arith in rw other (last_same _ refl))

    pub Flow-wake :
        (pipes id).phase ≡ waiting
        → (tokens (id - 1) == no_token) ≡ false
        → Flow num_pipes num_tasks issued
            (set_at pipes id (record { pos = (pipes id).pos; phase = holding }))
            tokens
            submitted
    Flow-wake phase token =
        Flow-pipe id _ _ pos (flow.started id)
          (Counts-wake (arrived issued pipes (id - 1)) fits_before (tokens (id - 1)) (pipes id).pos
            token (rw phase at (before_pipe id pos le)))
          (behind_pipe id pos) (λ k e f. refl) (last_same _ refl)

    pub Flow-pass :
        (pipes id).phase ≡ holding
        → Flow num_pipes num_tasks issued
            (set_at pipes id (record { pos = (pipes id).pos + 1; phase = fetching }))
            (add_token tokens id)
            submitted
    Flow-pass phase =
        let self : (id == id) ≡ true = ground arith in
        let not_before : (id - 1 == id) ≡ false = ground arith in
        let next : (pipes id).pos - 1 + 1 ≡ (pipes id).pos + 1 - 1 =
          omega (arith, flow.started id) in
        Flow-pipe id _ _ pos (omega arith)
          (rw not_before (
            Counts-pass (arrived issued pipes (id - 1)) fits_before (tokens (id - 1)) (pipes id).pos
              (rw phase at (before_pipe id pos le))))
          (λ lt. rw self (
            subst (λ x. Counts x (wrap (tokens id + 1)) (pipes (id + 1)).phase (pipes (id + 1)).pos)
              next
              (Counts-arrive ((pipes id).pos - 1) fits_pos (tokens id) (pipes (id + 1)).phase
                (pipes (id + 1)).pos (behind_pipe id pos lt))))
          (λ k e f. let other : (k == id) ≡ false = ground arith in rw other refl)
          (elim (arrived-set_at (record { pos = (pipes id).pos + 1; phase = fetching })) [
            | inl (same, after, before) ↦
                let token : tokens num_pipes ≡ tokens id = ap tokens same in
                let is_id : (num_pipes == id) ≡ true = ground arith in
                rw (after, is_id)
                  (ground (arith, before, flow.last, token, fits_pos, flow.started id))
            | inr (ne, after) ↦
                let not_id : (num_pipes == id) ≡ false = ground arith in
                rw (after, not_id) flow.last
          ])

  pub Flow-issue :
      num_tasks + 2 < u64_mod
      → issued < num_tasks
      → Flow num_pipes num_tasks (issued + 1) pipes (add_token tokens 0) submitted
  Flow-issue fits more = record {
    issued_le = omega arith;
    started = flow.started;
    balance = λ k lt. elim (Bool-cases (k == 0)) [
      | inl e ↦
          let same = ==→eq k 0 e in
          rw e (
            Counts-arrive issued (omega arith) (tokens 0) (pipes (k + 1)).phase (pipes (k + 1)).pos
              (subst (λ x. Counts issued (tokens x) (pipes (k + 1)).phase (pipes (k + 1)).pos) same
                (rw e at (flow.balance k lt))))
      | inr e ↦ rw e (rw e at (flow.balance k lt))
    ];
    last = elim (Bool-cases (num_pipes == 0)) [
      | inl e ↦
          let token = ap tokens (==→eq num_pipes 0 e) in
          let last = rw e at flow.last in rw e (ground (arith, token, last))
      | inr e ↦ rw e (rw e at flow.last)
    ];
  }

  pub Flow-board :
      num_tasks + 2 < u64_mod
      → Flow num_pipes num_tasks issued pipes
          (set_at tokens num_pipes 0)
          (wrap (submitted + tokens num_pipes))
  Flow-board fits = record {
    issued_le = flow.issued_le;
    started = flow.started;
    balance =
        λ k lt. let other : (k == num_pipes) ≡ false = ground arith in rw other (flow.balance k lt);
    last =
        let self : (num_pipes == num_pipes) ≡ true = ground arith in
        let few = arrived_le num_pipes (omega arith) in
        rw self (ground (arith, flow.last, few, flow.issued_le));
  }
