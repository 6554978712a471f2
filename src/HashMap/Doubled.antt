-- ===== src/HashMap/Doubled.antt =====
-- src/hashmap.c: where qt_hash_put_locked meets a removed entry in the first bucket of a key.
use qthreads.HashMap.Route.{Shape, home, stride, first_bucket_lem, step_of_lem, target_step}
use qthreads.HashMap.Scan.{run_of, NotHit, first_free}
use qthreads.HashMap.Step.{hash_put-free}
use qthreads.HashMap.{Entry, Table, success, fills, hash_target, hash_put, fill_entry}
use qthreads.Prelude.{
  ℕ, suc, ◌+◌, ◌*◌, ◌^◌, ◌≤◌, ◌≡◌, ◌≢◌, refl, sym, ◌∙◌, ap, false, some, arith, ◌==◌, update_same,
  update_ne,
}

-- A put of a key above 1 whose first bucket has a removed entry as its first free one, and not the
-- key, looks no further: it succeeds, and where another entry `s` of the table holds the key already,
-- two entries then hold it, and the count is one more.
pub put-Doubled :
    {b n : ℕ} {h : Table}
    → Shape b n h
    → (fuel min_entries key value f s : ℕ) → 2 ≤ key
    → NotHit h.entries key (run_of (2 ^ b) (home b n key * 2 ^ b))
    → first_free h.entries (run_of (2 ^ b) (home b n key * 2 ^ b)) ≡ some f
    → (h.entries f).key ≡ 1
    → (h.entries s).key ≡ key
    → (after : Table) × (hash_put (suc fuel) (2 ^ b) min_entries h key value
        ≡ some (after, success))
      × ((after.entries f).key ≡ key)
      × ((after.entries s).key ≡ key)
      × (f ≢ s)
      × (after.population ≡ h.population + 1)
unfolding fill_entry
put-Doubled {b} {n} {h} shape fuel min_entries key value f s big absent e one holds =
    let new : Entry = record { key = key; value = value } in
    let z : ((h.entries f).key == 0) ≡ false = ground (arith, one) in
    let away : f ≢ s = λ c.
      let d : 1 ≡ key = sym one ∙ ap (λ x. (h.entries x).key) c ∙ holds in omega (arith, d, big) in
    let where_to : hash_target (2 ^ b) h key ≡ some (fills (some f)) =
      target_step (2 ^ b) key (home b n key * 2 ^ b) (stride b n key * 2 ^ b) h
        (first_bucket_lem shape key) (step_of_lem shape key) absent
      ∙ (rw e refl) in
    (
      fill_entry f key value h,
      hash_put-free fuel (2 ^ b) min_entries h key value f big where_to ∙ rw z refl,
      ap (λ x. x.key) (update_same h.entries f new),
      ap (λ x. x.key) (update_ne h.entries f s new away) ∙ holds,
      away,
      refl,
    )
