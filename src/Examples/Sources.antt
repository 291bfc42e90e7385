-- ===== src/Examples/Sources.antt =====
-- A backend for the tests of src/read.rs, as `Read` of its tests: a source that fails to be opened a
-- given number of times, and starts at its first frame whenever it is opened.
use carbon_io.Prelude.{
  ℕ, zero, suc, ◌≡◌, ◌≢◌, refl, List, [], ◌∷◌, Option, none, some, length, Result, ok, err, Poll,
  ready, pending, ap, sym,
}
use carbon_io.Traits.{ReadFile}
use carbon_io.Read.State.{Factory}
use carbon_io.Read.Contract.{Call, to_open, to_read, Contract}

-- `reader` is what is left to read once the source is open.
pub record Source : Type 0 where
  pub values : List ℕ
  pub count : ℕ
  pub open_failures : ℕ
  pub reader : Option (List ℕ)

abbrev pub open_source : Source → ℕ → Source × Poll (Result (Unit {0}) ℕ)
open_source f zero = (record f { reader = some f.values }, ready (ok tt))
open_source f (suc n) = (record f { open_failures = n }, ready (err 1))

abbrev pub read_source :
    Source → Option (List ℕ) → ℕ → Source × ℕ × Poll (Result (Option (Unit {0})) ℕ)
read_source f none frame = (f, frame, ready (err 2))
read_source f (some []) frame = (f, frame, ready (ok none))
read_source f (some (x ∷ rest)) frame = (record f { reader = some rest }, x, ready (ok (some tt)))

instance abbrev pub sources : ReadFile ℕ Source ℕ
sources = record {
  frame_count = λ f. f.count;
  poll_open = λ f cx. open_source f f.open_failures;
  poll_read = λ f cx frame. read_source f f.reader frame;
}

-- The first attempt to open it fails.
abbrev pub source_of : List ℕ → Source
source_of l = record { values = l; count = length l; open_failures = 1; reader = none }

-- Buffers are zero; the factory counts its calls.
instance abbrev pub zero_buffers : Factory ℕ ℕ
zero_buffers = record { call = λ n. (0, suc n) }

abbrev pub frames_left : List ℕ → Option (List ℕ) → List ℕ
frames_left values none = values
frames_left values (some l) = l

abbrev pub source_frames : Source → List ℕ
source_frames f = frames_left f.values f.reader

-- A source may be opened until it is open. It has nothing to continue, so it may be read with any
-- buffer.
abbrev pub Allowed : Source → Call ℕ → Type 0
Allowed f to_open = f.reader ≡ none
Allowed f (to_read buffer) = Unit {0}

open_source-frames :
    (f : Source) (n : ℕ) → f.reader ≡ none → source_frames (open_source f n).0 ≡ source_frames f
open_source-frames f zero e = ap (frames_left f.values) (sym e)
open_source-frames f (suc n) e = refl

open_source-again :
    (f : Source) (n : ℕ)
    → f.reader ≡ none
    → (open_source f n).1 ≢ ready (ok tt)
    → (open_source f n).0.reader ≡ none
open_source-again f zero e failed = absurd (failed refl)
open_source-again f (suc n) e failed = e

read_source-pending :
    (f : Source) (reader : Option (List ℕ)) (frame : ℕ)
    → (read_source f reader frame).2 ≡ pending
    → source_frames (read_source f reader frame).0 ≡ source_frames f
read_source-pending f none frame e = refl
read_source-pending f (some []) frame e = refl
read_source-pending f (some (x ∷ l)) frame e = cc

read_source-frame :
    (f : Source) (reader : Option (List ℕ)) (frame : ℕ)
    → (read_source f reader frame).2 ≡ ready (ok (some tt))
    → frames_left f.values reader
      ≡ (read_source f reader frame).1 ∷ source_frames (read_source f reader frame).0
read_source-frame f none frame e = cc
read_source-frame f (some []) frame e = cc
read_source-frame f (some (x ∷ l)) frame e = refl

pub sources-Contract : Contract sources source_frames Allowed
sources-Contract = record {
  opens = λ f cx unopened. open_source-frames f f.open_failures unopened;
  reopens = λ f cx unopened failed. open_source-again f f.open_failures unopened failed;
  begins = λ f cx unopened opened buffer. tt;
  waits = λ f cx frame fit e. (read_source-pending f f.reader frame e, tt);
  reads = λ f cx frame fit e. (read_source-frame f f.reader frame e, λ next. tt);
}
