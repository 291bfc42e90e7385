-- ===== src/Write/Account/Calls/Cases.antt =====
-- src/write.rs: the branches of `push_file`, `pop_swap` and `pop_file`.
use carbon_io.Prelude.{
  ◌<◌, ◌≡◌, ◌⊎◌, refl, true, false, Bool-cases, List, [], ◌∷◌, ◌++◌, none, some, inl, inr, arith,
  ltb, ok, err, saturating_sub, length,
}
use carbon_io.Errors.{ContractError, admission_not_ready, input_closed}
use carbon_io.Traits.{WriteFile}
use carbon_io.Write.Slots.{FileState, Slot, closed, idle, new_slot}
use carbon_io.Write.State.{
  contract, WriteScheduler, is_writing, is_closing, wake, validate_file, take_head,
}
use carbon_io.Write.Api.{head_done, reused, push_file, pop_swap, pop_file}

module _ {Q T F O A : Type 0} (w : WriteScheduler Q T F O A) where
  -- The scheduler without its head.
  abbrev pub behind : List (Slot T F O) → WriteScheduler Q T F O A
  behind rest = record w {
    files = rest;
    fill_index = saturating_sub w.fill_index 1;
    poll_cursor = saturating_sub w.poll_cursor 1;
  }

  -- The head has closed.
  pub record Head (slot : Slot T F O) (rest : List (Slot T F O)) (output : O) : Type 0 where
    pub files : w.files ≡ slot ∷ rest
    pub state : slot.state ≡ closed output

  abbrev pub Taken : Type 0
  Taken =
      ((head_done w.files ≡ false) × (take_head w ≡ (w, none)))
      ⊎ ((slot : Slot T F O) × (rest : List (Slot T F O)) × (output : O) × Head slot rest output
          × (head_done w.files ≡ true)
          × (take_head w ≡ (behind rest, some (record slot { state = idle }, output))))

  take_head-state :
      (slot : Slot T F O) (rest : List (Slot T F O)) (st : FileState O)
      → w.files ≡ slot ∷ rest
      → slot.state ≡ st
      → Taken
  unfolding take_head
  take_head-state slot rest (closed output) e st =
      inr (slot, rest, output, record { files = e; state = st }, ground arith, ground arith)
  take_head-state slot rest FileState.idle e st = inl (ground arith)
  take_head-state slot rest FileState.opening e st = inl (ground arith)
  take_head-state slot rest FileState.writing e st = inl (ground arith)
  take_head-state slot rest FileState.closing e st = inl (ground arith)

  take_head-files : (files : List (Slot T F O)) → w.files ≡ files → Taken
  unfolding take_head
  take_head-files [] e = inl (ground arith)
  take_head-files (slot ∷ rest) e = take_head-state slot rest slot.state e refl

  pub take_head-cases : Taken
  take_head-cases = take_head-files w.files refl

module _ {Q T F E O A : Type 0} (file : WriteFile T F E O) (w : WriteScheduler Q T F O A) where
  module _ (f : F) where
    validate_file-cases :
        (I : Type 0)
        → ((c : ContractError) × (validate_file {I = I} file w f ≡ err (contract c)))
          ⊎ ((validate_file {I = I} file w f ≡ ok tt) × (0 < file.frame_capacity f))
    unfolding validate_file
    validate_file-cases I = ground arith

    -- The scheduler with a slot for `f`.
    abbrev pub pushed : WriteScheduler Q T F O A
    pushed = record w { files = w.files ++ new_slot file f (ltb 0 w.config.max_retries) ∷ [] }

    pub push_file-cases :
        (I : Type 0)
        → ((c : ContractError) × (push_file {I = I} file w f ≡ (w, err (contract c))))
          ⊎ ((is_writing w.phase ≡ true)
              × (0 < file.frame_capacity f)
              × (push_file {I = I} file w f ≡ (wake pushed, ok tt)))
    unfolding push_file
    push_file-cases I = elim (Bool-cases (is_writing w.phase)) [
      | inr n ↦ inl (input_closed, rw (push_file, n) refl)
      | inl y ↦ elim (Bool-cases (ltb (length w.files) w.config.window.max_active_files)) [
        | inr n ↦ inl (admission_not_ready, rw (push_file, y, n) refl)
        | inl a ↦ elim (validate_file-cases I) [
          | inl (c, e) ↦ inl (c, rw (push_file, y, a, e) refl)
          | inr (e, pos) ↦ inr (y, pos, rw (push_file, y, a, e) refl)
        ]
      ]
    ]

  -- The scheduler whose head has been replaced by a slot for `f`.
  abbrev pub swapped : Slot T F O → List (Slot T F O) → F → WriteScheduler Q T F O A
  swapped slot rest f = record (behind w rest) { files = rest ++ reused file slot f ∷ [] }

  pub pop_swap-cases :
      (I : Type 0) (f : F)
      → ((c : ContractError) × (pop_swap {I = I} file w f ≡ (w, err (contract c))))
        ⊎ ((slot : Slot T F O) × (rest : List (Slot T F O)) × (output : O) × Head w slot rest output
            × (is_writing w.phase ≡ true)
            × (0 < file.frame_capacity f)
            × (pop_swap {I = I} file w f ≡ (wake (swapped slot rest f), ok (slot.file, output))))
  unfolding pop_swap
  pop_swap-cases I f = elim (Bool-cases (is_writing w.phase)) [
    | inr n ↦ inl (input_closed, rw (pop_swap, n) refl)
    | inl y ↦ elim (validate_file-cases f I) [
      | inl (c, e) ↦ inl (c, rw (pop_swap, y, e) refl)
      | inr (e, pos) ↦ elim (take_head-cases w) [
        | inl (h, t) ↦ inl (admission_not_ready, rw (pop_swap, y, e, h) refl)
        | inr (slot, rest, output, head, h, t) ↦
            inr (slot, rest, output, head, y, pos, (ground arith))
      ]
    ]
  ]

  pub pop_file-cases :
      (I : Type 0)
      → ((c : ContractError) × (pop_file {I = I} file w ≡ (w, err (contract c))))
        ⊎ (pop_file {I = I} file w ≡ (w, ok none))
        ⊎ ((slot : Slot T F O) × (rest : List (Slot T F O)) × (output : O) × Head w slot rest output
            × (is_closing w.phase ≡ true)
            × (pop_file {I = I} file w ≡ (wake (behind w rest), ok (some (slot.file, output)))))
  unfolding pop_file
  pop_file-cases I = elim (Bool-cases (is_closing w.phase)) [
    | inr n ↦ inl (input_closed, rw (pop_file, n) refl)
    | inl y ↦ elim (take_head-cases w) [
      | inl (_, e) ↦ inr (inl (ground arith))
      | inr (slot, rest, output, head, _, e) ↦
          inr (inr (slot, rest, output, head, y, (ground arith)))
    ]
  ]
