-- ===== src/Config.antt =====
-- src/config.rs: the window of a scheduler, its validation, and the retry policy.
use carbon_io.Prelude.{ℕ, max, ◌||◌, ◌==◌, if◌then◌else◌, Result, ok, err}
use carbon_io.Errors.{ContractError, invalid_window}

pub record Window : Type 0 where
  pub target_frames : ℕ
  pub open_ahead_frames : ℕ
  pub max_active_files : ℕ

-- `Default for Window`.
abbrev pub default_window : Window
default_window = record { target_frames = 256; open_ahead_frames = 1024; max_active_files = 16 }

unfoldable pub validate : Window → Result (Unit {0}) ContractError
validate window =
    if window.target_frames == 0 || window.max_active_files == 0 then err invalid_window else ok tt

-- `Window::new`, where `?` passes the error of `validate` on.
unfoldable pub new_window : ℕ → ℕ → ℕ → Result Window ContractError
unfolding validate
new_window target_frames open_ahead_frames max_active_files =
    let window : Window = record {
      target_frames = target_frames;
      open_ahead_frames = open_ahead_frames;
      max_active_files = max_active_files;
    } in
    elim (validate window) [ ok _ ↦ ok window | err e ↦ err e ]

unfoldable pub horizon : Window → ℕ
horizon window = max window.target_frames window.open_ahead_frames

unfoldable pub with_target_frames : Window → ℕ → Window
with_target_frames window n = record window { target_frames = n }

unfoldable pub with_open_ahead_frames : Window → ℕ → Window
with_open_ahead_frames window n = record window { open_ahead_frames = n }

unfoldable pub with_max_active_files : Window → ℕ → Window
with_max_active_files window n = record window { max_active_files = n }

pub record SchedulerConfig : Type 0 where
  pub window : Window
  pub max_retries : ℕ

unfoldable pub new_config : Window → ℕ → SchedulerConfig
new_config window max_retries = record { window = window; max_retries = max_retries }

unfoldable pub with_window : SchedulerConfig → Window → SchedulerConfig
with_window config window = record config { window = window }

unfoldable pub with_max_retries : SchedulerConfig → ℕ → SchedulerConfig
with_max_retries config n = record config { max_retries = n }
