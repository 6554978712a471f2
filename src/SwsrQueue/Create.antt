-- ===== src/SwsrQueue/Create.antt =====
-- `qswsrqueue_create` of src/ds/qswsrqueue.c.
use qthreads.SwsrQueue.{Ring, slots, create}
use qthreads.SwsrQueue.Contents.{IsValid, contents}
use qthreads.Prelude.{
  ℕ, ◌+◌, ◌-◌, ◌*◌, ◌/◌, ◌%◌, ◌^◌, ◌≤◌, ◌<◌, ◌≡◌, refl, Option, some, [], ◌==◌, ltb, if◌then◌else◌,
  if_both, option_both, some_inj, subst, arith,
}

-- The multiple of the width that is reached by rounding up.
round_up-le :
    (width n : ℕ)
    → 0 < width
    → width < 2 ^ 31
    → n < 2 ^ 62
    → n ≤ (if n % width == 0 then n else (n + (width - n % width)) % 2 ^ 64)
round_up-le width n pos narrow small =
    if_both (λ k. n ≤ k) (n % width == 0) (λ t. omega arith)
      (λ t. let r : n % width < width = omega arith in omega arith)

-- At least as many slots as were wanted, and not none.
slots-le :
    (width wanted : ℕ)
    → 8 ≤ width
    → width < 2 ^ 31
    → wanted * 8 < 2 ^ 64
    → (wanted ≤ slots width wanted) × (0 < slots width wanted)
unfolding slots
slots-le width wanted wide narrow small =
    let n = if ltb (wanted * 8 % 2 ^ 64) width then width / 8 else wanted in
    let up : (wanted ≤ n) × (0 < n) × (n < 2 ^ 62) = ground arith in
    let le = round_up-le width n (omega arith) narrow up.2 in (omega arith, omega arith)

-- For a cache line of at least 8 and less than 2 ^ 31 bytes, and a wish below 2 ^ 61, a ring that
-- is created is valid, empty, and has at least as many slots as were wanted.
pub create-IsValid :
    (width wanted : ℕ) (memory : Option (ℕ → ℕ)) (q : Ring)
    → 8 ≤ width
    → width < 2 ^ 31
    → wanted * 8 < 2 ^ 64
    → create width memory wanted ≡ some q
    → IsValid q × (contents q ≡ []) × (wanted ≤ q.size)
unfolding create contents
create-IsValid width wanted memory q wide narrow small h =
    let n = slots width wanted in
    let le = slots-le width wanted wide narrow small in
    let Goal : Option Ring → Type 0 =
      λ r. r ≡ some q → IsValid q × (contents q ≡ []) × (wanted ≤ q.size) in
    if_both Goal (ltb (2 ^ 32 - 1) n) (λ t e. cc)
      (λ t.
        option_both Goal memory (λ none_left e. cc)
          (λ mem got e.
            let r : Ring = record { head = 0; size = n; tail = 0; size2 = n; elements = mem } in
            let valid : IsValid r = record {
              narrow = ground arith;
              head_fits = le.1;
              tail_fits = le.1;
              copies = refl;
            } in
            subst (λ k. IsValid k × (contents k ≡ []) × (wanted ≤ k.size)) (some_inj e)
              (valid, refl, le.0)))
      h
