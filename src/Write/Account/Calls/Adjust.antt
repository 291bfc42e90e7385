-- ===== src/Write/Account/Calls/Adjust.antt =====
-- src/write.rs: `set_window`, of a scheduler that goes on and of one that has failed.
use carbon_io.Prelude.{
  Bool-cases, ◌==◌, ◌||◌, ℕ, ◌≤◌, ◌≡◌, ◌⊎◌, refl, Option-cases, inl, inr, arith, min, max, ok, err,
}
use carbon_io.Errors.{ContractError}
use carbon_io.Config.{Window, validate}
use carbon_io.Budget.{shrink_to}
use carbon_io.Write.State.{WriteScheduler, shrink_permit, wake, set_window}
use carbon_io.Write.Account.Drive.{Broken, wake-none, wake-some}

module _ {Q T F O A : Type 0} where
  wake-Broken : (w : WriteScheduler Q T F O A) → Broken w → Broken (wake w)
  wake-Broken w b = elim (Option-cases w.waker) [
    | inl e ↦ rw (wake-none w e) b
    | inr (cx, e) ↦ rw (wake-some w cx e) (record {
      phased = b.phased;
      files = b.files;
      partial = b.partial;
      used = b.used;
      granted = b.granted;
    })
  ]

  pub set_window-cases :
      (w : WriteScheduler Q T F O A) (window : Window)
      → ((set_window w window).0 ≡ w)
        ⊎ ((size : ℕ) × (w.used ≤ size)
            × ((set_window w window).0
                ≡ wake (
                    shrink_permit
                      (record w { config = record w.config { window = window } })
                      (min w.permit.capacity size))))
  unfolding set_window validate
  set_window-cases w window =
      elim (Bool-cases (window.target_frames == 0 || window.max_active_files == 0)) [
        | inl e ↦ inl (rw (set_window, validate, e) refl)
        | inr e ↦
            inr (max window.target_frames w.used, omega arith, rw (set_window, validate, e) refl)
      ]

  pub set_window-Broken :
      (w : WriteScheduler Q T F O A) (window : Window) → Broken w → Broken (set_window w window).0
  unfolding shrink_permit shrink_to
  set_window-Broken w window b = elim (set_window-cases w window) [
    | inl e ↦ rw e b
    | inr (size, le, e) ↦
        let v : WriteScheduler Q T F O A = record w {
          config = record w.config { window = window };
        } in
        rw e (
          wake-Broken (shrink_permit v (min w.permit.capacity size)) (record {
            phased = b.phased;
            files = b.files;
            partial = b.partial;
            used = b.used;
            granted = omega (arith, b.granted);
          }))
  ]

  pub set_window-rejected :
      (w : WriteScheduler Q T F O A) (window : Window) (c : ContractError)
      → (set_window w window).1 ≡ err c
      → (set_window w window).0 ≡ w
  unfolding set_window validate
  set_window-rejected w window c h =
      elim (Bool-cases (window.target_frames == 0 || window.max_active_files == 0)) [
        | inl e ↦ rw (set_window, validate, e) refl
        | inr e ↦
            let accepted : (set_window w window).1 ≡ ok tt = rw (set_window, validate, e) refl in cc
      ]
