-- ===== src/Write/Session/Stream.antt =====
-- src/write.rs: what a scheduler consumed is what it returned and what it still holds, after any calls.
use carbon_io.Prelude.{
  ℕ, ◌≡◌, ◌⊎◌, refl, ap, subst, Bool, true, false, List, [], ◌++◌, none, inl, inr, arith, gather,
  ok,
}
use carbon_io.Config.{Window, SchedulerConfig}
use carbon_io.Budget.{State, FrameBudget}
use carbon_io.Traits.{WriteFile}
use carbon_io.Write.Frames.{PartialFrame, FrameAllocator}
use carbon_io.Write.Contract.{FrameContract}
use carbon_io.Write.Slots.{Slot, closed}
use carbon_io.Write.State.{WriteScheduler, is_writing, new_writer, set_window}
use carbon_io.Write.Api.{push_file}
use carbon_io.Write.Queue.{Kept}
use carbon_io.Write.Account.Drive.{Broken}
use carbon_io.Write.Account.Stream.{Holding}
use carbon_io.Write.Account.Calls.{set_window-Holding, push_file-Holding}
use carbon_io.Write.Account.Calls.Adjust.{set_window-Broken}
use carbon_io.Write.Session.Opening.{new_writer-ok}
use carbon_io.Write.Session.Closed.{push_file-closed}

module _ {Q T F E O A I R IE B : Type 0} {frame : PartialFrame Q I R T IE} {content : Q → List B}
    {bytes : T → List B} {part : R → I → List B} (law : FrameContract frame content bytes part)
    (file : WriteFile T F E O) (max_retries : ℕ) (P : Bool → List T → Slot T F O → Type 0)
    (wrote : O → List B) where
  -- What the fills consumed is what the results stand for and what is held; nothing is known of what a
  -- scheduler that has failed held.
  pub record Told (fills : List (R × I)) (outputs : List O) (w : WriteScheduler Q T F O A)
      : Type 0 where
    pub left : List B
    pub told : gather (λ fill. part fill.0 fill.1) fills ≡ gather wrote outputs ++ left
    pub state : ((stop : Bool) × Holding law file max_retries P stop left w) ⊎ Broken w

  module _ (allocator : FrameAllocator Q A) (kept : Kept file max_retries P)
      (closes : (stop : Bool) (all : List T) (slot : Slot T F O) (o : O)
        → slot.state ≡ closed o
        → P stop all slot
        → gather bytes all ≡ wrote o) where
    pub Broken-writing : (w : WriteScheduler Q T F O A) → Broken w → is_writing w.phase ≡ false
    Broken-writing w b = ap is_writing b.phased

    pub opened-Told :
        (a : A) (budget : FrameBudget) (config : SchedulerConfig) (w : WriteScheduler Q T F O A)
        → config.max_retries ≡ max_retries
        → new_writer a budget config ≡ ok w
        → Told [] [] w
    opened-Told a budget config w retries e =
        subst (Told [] []) (new_writer-ok a budget config w e) (record {
          left = [];
          told = refl;
          state = inl (
            false,
            record {
              ls = [];
              on = record {
                retries = retries;
                phased = refl;
                each = tt;
                filled = λ _ i slot h. cc;
                bounded = λ _. omega arith;
                current = refl;
                started = λ e. cc;
                account = refl;
                granted = omega arith;
              };
              same = refl;
              fillable = λ q e. cc;
            },
          );
        })

    module _ (fills : List (R × I)) (outputs : List O) (w : WriteScheduler Q T F O A) where
      pub waker-Told : Told fills outputs w → Told fills outputs (record w { waker = none })
      waker-Told t = record {
        left = t.left;
        told = t.told;
        state = elim t.state [
          | inl (stop, h) ↦
              inl (stop, record { ls = h.ls; on = h.on; same = h.same; fillable = h.fillable })
          | inr b ↦ inr (record {
            phased = b.phased;
            files = b.files;
            partial = b.partial;
            used = b.used;
            granted = b.granted;
          })
        ];
      }

      pub pushed-Told :
          (f : F) → Told fills outputs w → Told fills outputs (push_file {I = IE} file w f).0
      pushed-Told f t = elim t.state [
        | inl (false, h) ↦ record {
          left = t.left;
          told = t.told;
          state = inl (false, push_file-Holding law file max_retries P kept IE t.left w f h);
        }
        | inl (true, h) ↦ rw (push_file-closed IE file w f (ap is_writing h.on.phased)) t
        | inr b ↦ rw (push_file-closed IE file w f (Broken-writing w b)) t
      ]

      pub windowed-Told :
          (window : Window) → Told fills outputs w → Told fills outputs (set_window w window).0
      windowed-Told window t = record {
        left = t.left;
        told = t.told;
        state = elim t.state [
          | inl (stop, h) ↦
              inl (stop, set_window-Holding law file max_retries P stop t.left w window h)
          | inr b ↦ inr (set_window-Broken w window b)
        ];
      }

      pub elsewhere-Told :
          (state : State)
          → Told fills outputs w
          → Told fills outputs (record w { budget = record w.budget { state = state } })
      elsewhere-Told state t = record {
        left = t.left;
        told = t.told;
        state = elim t.state [
          | inl (stop, h) ↦
              inl (stop, record { ls = h.ls; on = h.on; same = h.same; fillable = h.fillable })
          | inr b ↦ inr (record {
            phased = b.phased;
            files = b.files;
            partial = b.partial;
            used = b.used;
            granted = b.granted;
          })
        ];
      }
