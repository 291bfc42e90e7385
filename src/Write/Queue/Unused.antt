-- ===== src/Write/Queue/Unused.antt =====
-- src/write.rs: the slots at the end of the queue that `poll_close` drops unopened.
use carbon_io.Prelude.{
  ℕ, ◌+◌, ◌≡◌, inl, inr, refl, sym, ap, ◌∙◌, Bool, Bool-cases, List, [], ◌∷◌, ◌++◌, arith, ◌==◌,
  if◌then◌else◌, length, sum_of,
}
use carbon_io.Traits.{WriteFile}
use carbon_io.Write.Frames.{len}
use carbon_io.Write.Slots.{Slot}
use carbon_io.Write.Api.{drop_unused}
use carbon_io.Write.Sized.{Sized, cost}
use carbon_io.Write.Queue.{concat}
use carbon_io.Write.Queue.Each.{Each}

module _ {T F E O : Type 0} (file : WriteFile T F E O) (max_retries : ℕ)
    (P : Bool → List T → Slot T F O → Type 0) (stop : Bool) where
  cost-unused :
      (n : ℕ) (slot : Slot T F O)
      → Sized max_retries stop n slot
      → slot.assigned ≡ 0
      → cost max_retries slot ≡ 0
  unfolding cost len
  cost-unused n slot s e = ground arith

  -- The queue `left` is the queue `files` without some unused slots.
  abbrev Dropped : List (List T) → List (Slot T F O) → List (Slot T F O) → Type 0
  Dropped ls files left =
      (ls' : List (List T)) × Each file max_retries P stop ls' left
      × (concat ls' ≡ concat ls)
      × (sum_of (cost max_retries) left ≡ sum_of (cost max_retries) files)

  pub drop_unused-Dropped :
      (ls : List (List T)) (files : List (Slot T F O))
      → Each file max_retries P stop ls files
      → Dropped ls files (drop_unused files)
  unfolding drop_unused
  drop_unused-Dropped [] [] each = ([], tt, refl, refl)
  drop_unused-Dropped [] (x ∷ files) each = elim each [ ]
  drop_unused-Dropped (l ∷ ls) [] each = elim each [ ]
  drop_unused-Dropped (l ∷ ls) (slot ∷ files) (s, each) =
      go (drop_unused files) (drop_unused-Dropped ls files each)
    where
      nothing : (xs : List T) → length xs ≡ 0 → xs ≡ []
      nothing [] e = refl
      nothing (x ∷ xs) e = cc

      go :
          (left : List (Slot T F O))
          → Dropped ls files left
          → Dropped (l ∷ ls) (slot ∷ files) (elim left [
            | [] ↦ if slot.assigned == 0 then [] else slot ∷ []
            | next ∷ rest ↦ slot ∷ next ∷ rest
          ])
      go [] ([], each', same, sum) = elim (Bool-cases (slot.assigned == 0)) [
        | inl z ↦ rw z (
          [],
          tt,
          same ∙ ap (λ xs. xs ++ concat ls) (sym (nothing l (ground (arith, s.0.counted)))),
          omega (arith, sum, cost-unused (length l) slot s.0 (ground arith)),
        )
        | inr k ↦ rw k (l ∷ [], (s, tt), ap (λ xs. l ++ xs) same, omega (arith, sum))
      ]
      go [] (k ∷ ks, each', same, sum) = elim each' [ ]
      go (next ∷ rest) (ls', each', same, sum) =
          (l ∷ ls', (s, each'), ap (λ xs. l ++ xs) same, ap (λ n. cost max_retries slot + n) sum)
