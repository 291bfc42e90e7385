-- ===== src/Write/Session/Bytes.antt =====
-- src/write.rs: the bytes of the fills and of the results of a sequence of calls.
use mathlib.Core.List.{append_assoc, append-nil}
use carbon_io.Prelude.{
  ◌≡◌, refl, sym, ap, ◌∙◌, Option-cases, List, [], ◌∷◌, ◌++◌, inl, inr, gather, gather-append,
  Result, ok, err, Poll, ready, pending,
}
use carbon_io.Write.State.{WriteStatus}
use carbon_io.Write.Account.Fill.{consumed}
use carbon_io.Write.Session.{fills_of}

module _ {R I B X : Type 0} (part : R → I → List B) where
  pub fills_of-bytes :
      (answer : Poll (Result (WriteStatus R) (X))) (i : I)
      → gather (λ fill. part fill.0 fill.1) (fills_of answer i) ≡ consumed part i answer
  fills_of-bytes pending i = refl
  fills_of-bytes (ready (err x)) i = refl
  fills_of-bytes (ready (ok s)) i = elim (Option-cases s.output) [
    | inl e ↦ rw e refl
    | inr (r, e) ↦ rw e (append-nil (part r i))
  ]

module _ {R I O B X : Type 0} (part : R → I → List B) (wrote : O → List B) where
  pub more_told :
      (fills : List (R × I)) (outputs : List O) (left : List B)
      (answer : Poll (Result (WriteStatus R) (X))) (i : I)
      → gather (λ fill. part fill.0 fill.1) fills ≡ gather wrote outputs ++ left
      → gather (λ fill. part fill.0 fill.1) (fills ++ fills_of answer i)
        ≡ gather wrote outputs ++ (left ++ consumed part i answer)
  more_told fills outputs left answer i e =
      gather-append (λ fill. part fill.0 fill.1) fills (fills_of answer i)
      ∙ ap (λ xs. xs ++ gather (λ fill. part fill.0 fill.1) (fills_of answer i)) e
      ∙ ap (λ xs. (gather wrote outputs ++ left) ++ xs) (fills_of-bytes part answer i)
      ∙ append_assoc (gather wrote outputs) left (consumed part i answer)

module _ {O B : Type 0} (wrote : O → List B) where
  pub output_told :
      (outputs : List O) (o : O) (left s : List B) (bs : List B)
      → bs ≡ gather wrote outputs ++ left
      → left ≡ wrote o ++ s
      → bs ≡ gather wrote (outputs ++ o ∷ []) ++ s
  output_told outputs o left s bs e split =
      e
      ∙ ap (λ xs. gather wrote outputs ++ xs) split
      ∙ sym (append_assoc (gather wrote outputs) (wrote o) s)
      ∙ ap (λ xs. xs ++ s)
          (ap (λ xs. gather wrote outputs ++ xs) (sym (append-nil (wrote o)))
            ∙ sym (gather-append wrote outputs (o ∷ [])))

  pub none_told :
      (outputs : List O) (left : List B)
      → gather wrote (outputs ++ []) ++ left ≡ gather wrote outputs ++ left
  none_told outputs left = ap (λ os. gather wrote os ++ left) (append-nil outputs)
