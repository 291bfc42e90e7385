-- ===== src/Examples/Memory.antt =====
-- examples/memory/src/main.rs at work: the two assertions of `main`.
use Prim.Native.String.{String}
use carbon_io.Prelude.{
  ◌≤◌, ◌<◌, ◌≡◌, ◌⊎◌, refl, true, [], ◌∷◌, arith, sum_of, u32_mod, ok, err, ready, pending, some,
  none,
}
use carbon_io.Write.State.{backend}
use carbon_io.Display.{write_error_to_string}
use carbon_io.Memory.{
  new_source, sources, Destination, IoError, other, read_value, allocate, fill_value, open_sum,
  write_value,
}
use carbon_io.Memory.Contracts.{feed, feed-sum, numbers, AnyCall}
use carbon_io.Memory.Delivery.{polls, polls-new_source}
use carbon_io.Read.Contract.{Contract}
use carbon_io.Memory.Main.{main, push_sources}

main_asserts : main 64 3 ≡ ok (0 ∷ 1 ∷ 2 ∷ 3 ∷ 4 ∷ 5 ∷ [], 1 ∷ 14 ∷ [])
unfolding main push_sources read_value allocate fill_value open_sum write_value
main_asserts = refl

-- The destination sums what it is fed.
abbrev summed : Destination
summed = record { capacity = 4; sum = 0; waiting = true; woken = [] }

feed-sum_example :
    ((feed summed 3 (2 ∷ 3 ∷ [])).1 ≡ ready (ok tt))
      × ((feed summed 3 (2 ∷ 3 ∷ [])).0.sum ≡ sum_of (λ n. n) (2 ∷ 3 ∷ []))
      × (sum_of (λ n. n) (2 ∷ 3 ∷ []) < u32_mod)
    ⊎ ((feed summed 3 (2 ∷ 3 ∷ [])).1 ≡ ready (err (other "sum overflow")))
      × (u32_mod ≤ sum_of (λ n. n) (2 ∷ 3 ∷ []))
feed-sum_example = feed-sum summed 3 (2 ∷ 3 ∷ []) refl (omega arith)

abbrev io_error_to_string : IoError → String
io_error_to_string (other message) = message

-- How the overflow is displayed by the error of the writer.
overflow_displays :
    write_error_to_string {I = ⊥}
      (λ e. elim e [ ])
      io_error_to_string
      (backend (other "sum overflow"))
    ≡ "backend: sum overflow"
overflow_displays = refl

-- A source of two numbers.
polls-new_source_example :
    let opened = sources.poll_open (new_source (record { start = 7; end = 9 })) 3 in
    Contract sources numbers AnyCall
    × (opened.1 ≡ ready (ok tt))
    × (sources.frame_count (new_source (record { start = 7; end = 9 })) ≡ 2)
    × (polls 6 opened.0 3 0
        ≡ pending ∷ ready (some 7) ∷ pending ∷ ready (some 8) ∷ pending ∷ ready none ∷ [])
polls-new_source_example = polls-new_source (record { start = 7; end = 9 }) 3 0
