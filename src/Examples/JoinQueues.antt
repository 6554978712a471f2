-- ===== src/Examples/JoinQueues.antt =====
-- src/queue.c at concrete inputs.
use qthreads.JoinQueue.{
  Capped, capped_enqueue, first_member, capped_dequeue, launched, capped_release_all,
}
use qthreads.Prelude.{ℕ, ◌+◌, ◌≡◌, refl, none, some, [], ◌∷◌, ◌==◌, if◌then◌else◌}

-- Two of the slots hold a thread.
abbrev two_of : ℕ → Capped
two_of n = record {
  members = λ i. if i == 0 then none else some (i + 4);
  membercount = 3;
  maxmembers = n;
}

dequeue-first : (capped_dequeue (two_of 4)).1 ≡ some 5
unfolding capped_dequeue first_member
dequeue-first = refl

release-room : (capped_release_all (two_of 4)).1 ≡ 5 ∷ 6 ∷ []
unfolding capped_release_all launched
release-room = refl

release-full : (capped_release_all (two_of 3)).1 ≡ []
unfolding capped_release_all launched
release-full = refl

-- A join with room fails the assertion.
enqueue-room : capped_enqueue 9 (two_of 4) ≡ none
unfolding capped_enqueue
enqueue-room = refl
