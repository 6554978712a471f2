-- ===== src/Examples/Sincs.antt =====
-- src/sincs/donecount.c at concrete inputs: sums on two shepherds of two workers.
use qthreads.Sinc.{Reduction, Machine, collated, sinc_init, reset, expect, put_value}
use qthreads.Sinc.Reduce.{IsReduction, collated-put_value}
use qthreads.Sinc.Count.{counting, submit_all, Completed, submit_all-Completed}
use qthreads.Prelude.{ℕ, ◌+◌, ◌≡◌, refl, true, false, some, List, [], ◌∷◌, arith}

abbrev two_by_two : Machine
two_by_two = record { num_sheps = 2; num_wps = 2 }

abbrev sums : Reduction ℕ
sums = record { values = λ s w. 0; op = λ a b. a + b; result = 0; initial_value = 0 }

sums-IsReduction : IsReduction (λ (a b : ℕ). a + b)
sums-IsReduction = record { assoc = λ a b c. omega arith; comm = λ a b. omega arith }

abbrev others : List (ℕ × (ℕ × ℕ))
others = (0, (1, 7)) ∷ (1, (1, 3)) ∷ []

init-three : sinc_init (some (0, λ (a b : ℕ). a + b)) 3 ≡ counting 3 false sums
unfolding sinc_init
init-three = refl

reset-three : reset 3 (counting 0 true (put_value 1 0 4 sums)) ≡ counting 3 false sums
unfolding reset put_value
reset-three = refl

expect-two : expect 2 (counting 0 true sums) ≡ some (counting 2 false sums)
unfolding expect
expect-two = refl

submit_all-Completed_example :
    Completed two_by_two
      ((1, (0, 5)) ∷ others)
      sums
      (submit_all two_by_two ((1, (0, 5)) ∷ others) (counting 3 false sums))
submit_all-Completed_example =
    submit_all-Completed two_by_two (1, (0, 5)) others false sums sums-IsReduction
      (ground arith, ground arith, (ground arith, ground arith, (ground arith, ground arith, tt)))
      (ground arith)

collated-put_value_example :
    collated two_by_two (put_value 1 0 4 sums) ≡ collated two_by_two sums + 4
collated-put_value_example =
    collated-put_value two_by_two sums 1 0 4 sums-IsReduction (ground arith) (ground arith)
