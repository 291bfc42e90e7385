-- ===== src/Examples/Files.antt =====
-- A backend for the tests of src/write.rs: a destination that keeps its frames and fails to close a
-- given number of times, as `File` of its tests.
use carbon_io.Prelude.{
  ℕ, zero, suc, ◌≡◌, refl, List, [], ◌∷◌, ◌++◌, arith, Result, ok, err, Poll, ready, pending,
}
use carbon_io.Traits.{WriteFile}
use carbon_io.Write.Contract.{Contract}

pub record Destination (T : Type 0) : Type 0 where
  pub capacity : ℕ
  pub frames : List T
  pub failures : ℕ

abbrev pub close_destination :
    {T : Type 0} → Destination T → ℕ → Destination T × Poll (Result (List T) ℕ)
close_destination f zero = (f, ready (ok f.frames))
close_destination f (suc n) = (record f { failures = n }, ready (err 1))

instance abbrev pub destinations : {T : Type 0} → WriteFile T (Destination T) ℕ (List T)
destinations = record {
  frame_capacity = λ f. f.capacity;
  poll_open = λ f cx. (record f { frames = [] }, ready (ok tt));
  poll_write = λ f cx frame. (record f { frames = f.frames ++ frame ∷ [] }, ready (ok tt));
  poll_close = λ f cx. close_destination f f.failures;
}

abbrev pub stored_frames : {T : Type 0} → Destination T → List T
stored_frames f = f.frames

abbrev pub result_frames : {T : Type 0} → List T → List T
result_frames l = l

close_destination-pending :
    {T : Type 0} (f : Destination T) (n : ℕ)
    → (close_destination f n).1 ≡ pending
    → (close_destination f n).0.frames ≡ f.frames
close_destination-pending f zero e = refl
close_destination-pending f (suc n) e = refl

close_destination-ok :
    {T : Type 0} (f : Destination T) (n : ℕ) (o : List T)
    → (close_destination f n).1 ≡ ready (ok o)
    → o ≡ f.frames
close_destination-ok f zero o e = ground arith
close_destination-ok f (suc n) o e = cc

pub destinations-Contract :
    {T : Type 0} → Contract (destinations {T = T}) stored_frames result_frames
destinations-Contract = record {
  opens = λ f cx e. refl;
  writes = λ f cx frame e. refl;
  waits_to_write = λ f cx frame e. cc;
  waits_to_close = λ f cx e. close_destination-pending f f.failures e;
  closes = λ f cx o e. close_destination-ok f f.failures o e;
}
