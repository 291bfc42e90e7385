-- ===== src/Write/Contract.antt =====
-- What src/traits.rs asks of a `WriteFile`, as laws: opening starts from nothing, an accepted frame
-- is appended, and a poll that is pending or closes keeps what was accepted. What src/write.rs asks
-- of a `PartialFrame`: a fill appends what it consumed, and finishing keeps it.
use carbon_io.Prelude.{◌≡◌, true, false, List, [], ◌∷◌, ◌++◌, ok, ready, pending}
use carbon_io.Budget.{Waker}
use carbon_io.Traits.{WriteFile}
use carbon_io.Write.Frames.{PartialFrame}

-- `contents f` are the frames that the current attempt of `f` has accepted; `closed f o` says what
-- the close result `o` stands for.
pub record Contract {T F E O : Type 0} (file : WriteFile T F E O) (contents : F → List T)
    (result : O → List T) : Type 0 where
  pub opens :
      (f : F) (cx : Waker)
      → (file.poll_open f cx).1 ≡ ready (ok tt)
      → contents (file.poll_open f cx).0 ≡ []
  pub writes :
      (f : F) (cx : Waker) (frame : T)
      → (file.poll_write f cx frame).1 ≡ ready (ok tt)
      → contents (file.poll_write f cx frame).0 ≡ contents f ++ frame ∷ []
  pub waits_to_write :
      (f : F) (cx : Waker) (frame : T)
      → (file.poll_write f cx frame).1 ≡ pending
      → contents (file.poll_write f cx frame).0 ≡ contents f
  pub waits_to_close :
      (f : F) (cx : Waker)
      → (file.poll_close f cx).1 ≡ pending
      → contents (file.poll_close f cx).0 ≡ contents f
  pub closes :
      (f : F) (cx : Waker) (o : O) → (file.poll_close f cx).1 ≡ ready (ok o) → result o ≡ contents f

-- `content` is what the fills of a partial frame consumed, `bytes` what a finished frame stands for,
-- and `part` what a fill with this output consumed of its input. The scheduler fills a frame that
-- starts empty and incomplete, and only until it is complete: `fillable` tells such frames.
pub record FrameContract {Q I R T IE B : Type 0} (frame : PartialFrame Q I R T IE)
    (content : Q → List B) (bytes : T → List B) (part : R → I → List B) : Type 1 where
  pub fillable : Q → Type 0
  pub starts : (p : Q) → frame.is_empty p ≡ true → frame.is_complete p ≡ false → fillable p
  pub empty : (p : Q) → frame.is_empty p ≡ true → content p ≡ []
  pub fills :
      (p : Q) (cx : Waker) (i : I) (r : R)
      → fillable p
      → (frame.poll_fill p cx i).1 ≡ ready (ok r)
      → (content (frame.poll_fill p cx i).0 ≡ content p ++ part r i)
        × (frame.is_complete (frame.poll_fill p cx i).0 ≡ false
            → fillable (frame.poll_fill p cx i).0)
  pub waits :
      (p : Q) (cx : Waker) (i : I)
      → fillable p
      → (frame.poll_fill p cx i).1 ≡ pending
      → (content (frame.poll_fill p cx i).0 ≡ content p) × fillable (frame.poll_fill p cx i).0
  pub finishes : (p : Q) → frame.is_empty p ≡ false → bytes (frame.finish p) ≡ content p
