-- ===== src/Write/Session/Status.antt =====
-- src/write.rs: what a `WriteStatus` reports can be done.
use carbon_io.Prelude.{
  suc, ◌+◌, ◌<◌, ◌≡◌, inl, inr, refl, ap, ◌∙◌, Bool, true, false, Bool-cases, List, [], ◌∷◌, ◌++◌,
  none, some, arith, ltb, length, length-append, count_while, ok,
}
use carbon_io.Traits.{WriteFile}
use carbon_io.Write.Slots.{Slot, is_closed, new_slot}
use carbon_io.Write.State.{
  WriteScheduler, WriteStatus, is_writing, is_closing, wake, status, completed_files, validate_file,
}
use carbon_io.Write.Api.{head_done, reused, push_file, pop_swap, pop_file}
use carbon_io.Write.Account.Calls.Cases.{pushed, behind, Head, take_head-cases, swapped}

module _ {T F O : Type 0} where
  -- A slot that has not closed ends the completed ones.
  count_while-snoc :
      (files : List (Slot T F O)) (slot : Slot T F O)
      → is_closed slot.state ≡ false
      → count_while (λ s. is_closed s.state) (files ++ slot ∷ [])
        ≡ count_while (λ s. is_closed s.state) files
  count_while-snoc [] slot e = rw (count_while, e) refl
  count_while-snoc (x ∷ files) slot e = elim (Bool-cases (is_closed x.state)) [
    | inl c ↦ rw (count_while, c) (ap suc (count_while-snoc files slot e))
    | inr c ↦ rw (count_while, c) refl
  ]

  head_done-count :
      (files : List (Slot T F O))
      → 0 < count_while (λ s. is_closed s.state) files
      → head_done files ≡ true
  head_done-count [] lt = absurd (omega (arith, lt))
  head_done-count (x ∷ files) lt = elim (Bool-cases (is_closed x.state)) [
    | inl c ↦ c
    | inr c ↦
        let none_done : count_while (λ s. is_closed s.state) (x ∷ files) ≡ 0 =
          rw (count_while, c) refl in
        absurd (omega (arith, lt, none_done))
  ]

module _ {Q T F O A : Type 0} where
  wake-files : (w : WriteScheduler Q T F O A) → (wake w).files ≡ w.files
  unfolding wake
  wake-files w = ground arith

  wake-window : (w : WriteScheduler Q T F O A) → (wake w).config ≡ w.config
  unfolding wake
  wake-window w = ground arith

module _ {Q T F E O A : Type 0} (I : Type 0) (file : WriteFile T F E O)
    (w : WriteScheduler Q T F O A) where
  push_file-accepted :
      (f : F)
      → is_writing w.phase ≡ true
      → validate_file {I = I} file w f ≡ ok tt
      → length w.files < w.config.window.max_active_files
      → push_file {I = I} file w f ≡ (wake (pushed file w f), ok tt)
  unfolding push_file
  push_file-accepted f y e lt =
      let room : ltb (length w.files) w.config.window.max_active_files ≡ true = ground arith in
      rw (push_file, y, room, e) refl

  pop_swap-accepted :
      (f : F)
      → is_writing w.phase ≡ true
      → validate_file {I = I} file w f ≡ ok tt
      → head_done w.files ≡ true
      → (slot : Slot T F O) × (rest : List (Slot T F O)) × (output : O) × Head w slot rest output
        × (pop_swap {I = I} file w f ≡ (wake (swapped file w slot rest f), ok (slot.file, output)))
  unfolding pop_swap
  pop_swap-accepted f y e h = elim (take_head-cases w) [
    | inl (n, t) ↦ cc
    | inr (slot, rest, output, head, _, t) ↦ (slot, rest, output, head, (ground arith))
  ]

  pop_file-accepted :
      is_closing w.phase ≡ true
      → head_done w.files ≡ true
      → (slot : Slot T F O) × (rest : List (Slot T F O)) × (output : O) × Head w slot rest output
        × (pop_file {I = I} file w ≡ (wake (behind w rest), ok (some (slot.file, output))))
  unfolding pop_file
  pop_file-accepted y h = elim (take_head-cases w) [
    | inl (n, t) ↦ cc
    | inr (slot, rest, output, head, _, t) ↦ (slot, rest, output, head, (ground arith))
  ]

  Head-count :
      (slot : Slot T F O) (rest : List (Slot T F O)) (output : O)
      → Head w slot rest output
      → count_while (λ s. is_closed s.state) w.files ≡ count_while (λ s. is_closed s.state) rest + 1
  Head-count slot rest output head =
      let done : is_closed slot.state ≡ true = ap is_closed head.state in
      let counted : count_while (λ s. is_closed s.state) (slot ∷ rest)
          ≡ suc (count_while (λ s. is_closed s.state) rest) =
        rw (count_while, done) refl in
      omega (arith, ap (count_while (λ s. is_closed s.state)) head.files, counted)

module _ {T F E O : Type 0} (file : WriteFile T F E O) where
  new_slot-open : (f : F) (keep : Bool) → is_closed (new_slot {T = T} file f keep).state ≡ false
  unfolding new_slot
  new_slot-open f keep = refl

module _ {Q T F E O A : Type 0} (I R : Type 0) (file : WriteFile T F E O)
    (w : WriteScheduler Q T F O A) where
  -- What a status reports of the writer.
  abbrev pub reported : WriteScheduler Q T F O A → WriteStatus R
  reported v = status v none

  -- While a writer takes input and a status reports a missing file, `push_file` takes any valid file,
  -- and one file less is missing.
  pub status-push :
      (f : F)
      → is_writing w.phase ≡ true
      → validate_file {I = I} file w f ≡ ok tt
      → 0 < (reported w).missing_files
      → let d = push_file {I = I} file w f in
        (d.1 ≡ ok tt)
        × ((reported d.0).missing_files + 1 ≡ (reported w).missing_files)
        × ((reported d.0).completed_files ≡ (reported w).completed_files)
  unfolding status completed_files
  status-push f y e missing =
      let v = pushed file w f in
      let slot : Slot T F O = new_slot file f (ltb 0 w.config.max_retries) in
      rw (push_file-accepted I file w f y e (omega (arith, missing))) (
        refl,
        omega (
          arith,
          missing,
          ap length (wake-files v),
          length-append w.files (slot ∷ []),
          ap (λ c. c.window.max_active_files) (wake-window v),
        ),
        ap (count_while (λ s. is_closed s.state)) (wake-files v)
            ∙ count_while-snoc w.files slot (new_slot-open file f (ltb 0 w.config.max_retries)),
      )

  -- While a writer takes input and a status reports a completed file, `pop_swap` returns one for any
  -- valid file, and one completed file less is reported then.
  pub status-swap :
      (f : F)
      → is_writing w.phase ≡ true
      → validate_file {I = I} file w f ≡ ok tt
      → 0 < (reported w).completed_files
      → (x : F × O) × ((pop_swap {I = I} file w f).1 ≡ ok x)
        × ((reported (pop_swap {I = I} file w f).0).completed_files + 1
            ≡ (reported w).completed_files)
  unfolding status completed_files
  status-swap f y e some_done =
      let h : head_done w.files ≡ true = head_done-count w.files some_done in
      let (slot, rest, output, head, eq) = pop_swap-accepted I file w f y e h in
      let v = swapped file w slot rest f in
      (
        (slot.file, output),
        ap (λ d. d.1) eq,
        omega (
          arith,
          Head-count I file w slot rest output head,
          ap (λ d. count_while (λ s. is_closed s.state) d.0.files) eq,
          ap (count_while (λ s. is_closed s.state)) (wake-files v),
          count_while-snoc rest (reused file slot f) refl,
        ),
      )

  -- While a writer closes and there is a completed file, `pop_file` returns one, and one completed file
  -- less is there then.
  pub status-pop :
      is_closing w.phase ≡ true
      → 0 < completed_files w
      → (x : F × O) × ((pop_file {I = I} file w).1 ≡ ok (some x))
        × (completed_files (pop_file {I = I} file w).0 + 1 ≡ completed_files w)
  unfolding completed_files
  status-pop y some_done =
      let h : head_done w.files ≡ true = head_done-count w.files some_done in
      let (slot, rest, output, head, eq) = pop_file-accepted I file w y h in
      (
        (slot.file, output),
        ap (λ d. d.1) eq,
        omega (
          arith,
          Head-count I file w slot rest output head,
          ap (λ d. count_while (λ s. is_closed s.state) d.0.files) eq,
          ap (count_while (λ s. is_closed s.state)) (wake-files (behind w rest)),
        ),
      )
