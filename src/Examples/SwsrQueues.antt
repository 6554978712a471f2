-- ===== src/Examples/SwsrQueues.antt =====
-- The ring of src/ds/qswsrqueue.c at concrete inputs.
use qthreads.SwsrQueue.{Ring, next, slots, create, enqueue, dequeue}
use qthreads.SwsrQueue.Contents.{IsValid, contents}
use qthreads.SwsrQueue.Laws.{Enqueued, enqueue-Enqueued, Dequeued, dequeue-Dequeued}
use qthreads.SwsrQueue.Create.{create-IsValid}
use qthreads.SwsrQueue.Interleaved.{System, Writer, Reader, Step, Reach, filled, published}
use qthreads.SwsrQueue.Fifo.{Reach-fifo}
use qthreads.Prelude.{ℕ, ◌+◌, ◌≤◌, ◌≡◌, refl, some, [], ◌∷◌, ◌++◌, arith}

abbrev ring : ℕ → ℕ → Ring
ring h t = record { head = h; size = 4; tail = t; size2 = 4; elements = λ i. i + 10 }

ring-IsValid : IsValid (ring 3 1)
ring-IsValid = record {
  narrow = ground arith;
  head_fits = ground arith;
  tail_fits = ground arith;
  copies = refl;
}

fresh-IsValid : IsValid (ring 2 2)
fresh-IsValid = record {
  narrow = ground arith;
  head_fits = ground arith;
  tail_fits = ground arith;
  copies = refl;
}

contents-3-1 : contents (ring 3 1) ≡ 13 ∷ 10 ∷ []
unfolding contents
contents-3-1 = refl

enqueue-Enqueued_example : Enqueued (ring 3 1) 7 (enqueue (ring 3 1) 7)
enqueue-Enqueued_example = enqueue-Enqueued (ring 3 1) 7 ring-IsValid

dequeue-Dequeued_example : Dequeued (ring 3 1) (dequeue (ring 3 1))
dequeue-Dequeued_example = dequeue-Dequeued (ring 3 1) ring-IsValid

empty-ring : contents (ring 2 2) ≡ []
unfolding contents
empty-ring = refl

-- The writer has published 5 and the reader has passed its test.
abbrev one_sent : System
one_sent = record {
  ring = published (filled (ring 2 2) 5);
  writer = Writer.outside;
  reader = Reader.tested;
  sent = 5 ∷ [];
  received = [];
}

one_sent-Reach : Reach (ring 2 2) one_sent
unfolding next
one_sent-Reach =
    Reach.later
      (Reach.later
        (Reach.later
          (Reach.later Reach.start
            (Step.test_tail (ring 2 2) 5 Reader.outside [] [] (λ e. ground arith)))
          (Step.store_element (ring 2 2) 5 Reader.outside [] []))
        (Step.store_tail (filled (ring 2 2) 5) 5 Reader.outside [] []))
      (Step.test_head (published (filled (ring 2 2) 5)) Writer.outside (5 ∷ []) []
        (λ e. ground arith))

Reach-fifo_example : one_sent.sent ≡ one_sent.received ++ contents one_sent.ring
Reach-fifo_example = Reach-fifo fresh-IsValid refl one_sent-Reach

abbrev memory : ℕ → ℕ
memory i = 0

abbrev created : Ring
created = record { head = 0; size = 64; tail = 0; size2 = 64; elements = memory }

create-succeeds : create 64 (some memory) 20 ≡ some created
unfolding create slots
create-succeeds = refl

create-IsValid_example : IsValid created × (contents created ≡ []) × (20 ≤ 64)
create-IsValid_example =
    create-IsValid 64 20 (some memory) created (ground arith) (ground arith) (ground arith)
      create-succeeds
