-- ===== src/Write/Session/Opening.antt =====
-- src/write.rs: what `WriteScheduler::new` builds.
use carbon_io.Prelude.{◌≡◌, ◌⊎◌, refl, Bool-cases, [], none, inl, inr, ok, err, ◌==◌, ◌||◌}
use carbon_io.Config.{SchedulerConfig, validate}
use carbon_io.Budget.{FrameBudget, FramePermit, permit}
use carbon_io.Errors.{ContractError, invalid_window, zero_budget}
use carbon_io.Write.State.{WriteScheduler, writing, new_writer}

module _ {Q T F O A : Type 0} where
  -- `WriteScheduler::new` when it accepts its arguments.
  abbrev pub opening_writer :
      A → FrameBudget → FramePermit → SchedulerConfig → WriteScheduler Q T F O A
  opening_writer a budget p config = record {
    allocator = a;
    config = config;
    budget = budget;
    permit = p;
    woken = [];
    files = [];
    partial = none;
    used = 0;
    fill_index = 0;
    poll_cursor = 0;
    phase = writing;
    waker = none;
  }

  new_writer-cases :
      (a : A) (budget : FrameBudget) (config : SchedulerConfig)
      → ((c : ContractError) × (new_writer {P = Q} {T = T} {F = F} {R = O} a budget config ≡ err c))
        ⊎ (new_writer a budget config
            ≡ ok (opening_writer a (permit budget).0 (permit budget).1 config))
  unfolding new_writer validate
  new_writer-cases a budget config =
      let window = config.window in
      elim (Bool-cases (window.target_frames == 0 || window.max_active_files == 0)) [
        | inl e ↦ inl (invalid_window, rw (new_writer, validate, e) refl)
        | inr e ↦ elim (Bool-cases (budget.total == 0)) [
          | inl z ↦ inl (zero_budget, rw (new_writer, validate, e, z) refl)
          | inr z ↦ inr (rw (new_writer, validate, e, z) refl)
        ]
      ]

  pub new_writer-ok :
      (a : A) (budget : FrameBudget) (config : SchedulerConfig) (w : WriteScheduler Q T F O A)
      → new_writer a budget config ≡ ok w
      → opening_writer a (permit budget).0 (permit budget).1 config ≡ w
  new_writer-ok a budget config w e = elim (new_writer-cases a budget config) [
    | inl (c, x) ↦ cc
    | inr y ↦ cc
  ]
