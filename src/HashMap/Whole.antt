-- ===== src/HashMap/Whole.antt =====
-- src/hashmap.c: the search of qt_hash_internal_find ends, and says whether the table has the key.
use qthreads.HashMap.Cover.{route_inside}
use qthreads.HashMap.Route.{route, find_entry-scan}
use qthreads.HashMap.Scan.{scan, settle}
use qthreads.HashMap.Write.{scan_hit}
use qthreads.HashMap.State.{Laid, hit_or_not, settle_miss}
use qthreads.HashMap.{Table, hit, miss, find_entry}
use qthreads.Prelude.{ℕ, ◌^◌, ◌≤◌, ◌<◌, ◌≡◌, ◌≢◌, ◌⊎◌, ◌∙◌, ap, some, inl, inr, arith}

-- In a table as the puts and removals leave it (a power of two of buckets, each of a power of two of
-- entries, 128 to 2 ^ 24 in all, each key in use found by its own probes, the counts right), the
-- search for a key above 1 ends: it finds an entry of the table that holds the key, or it ends in a
-- miss and no entry of the table holds the key.
pub find_entry-Whole :
    {b n : ℕ} {h : Table}
    → Laid b n h
    → (key : ℕ) → 2 ≤ key
    → ((t : ℕ) × (find_entry (2 ^ b) h key ≡ some (hit t))
        × (t < h.num_entries)
        × ((h.entries t).key ≡ key))
      ⊎ ((find_entry (2 ^ b) h key ≡ some miss)
          × ((s : ℕ) → s < h.num_entries → (h.entries s).key ≢ key))
find_entry-Whole {b} {n} {h} laid key big =
    let shape = laid.shape in
    elim (hit_or_not (scan h.entries key (route b n key))) [
      | inl (t, e) ↦
          let r = scan_hit h.entries key t (route b n key) e in
          inl (
            t,
            find_entry-scan shape key ∙ ap (λ p. some (settle p)) e,
            (let few = route_inside b n key t r.0 in omega (arith, few, shape.sized)),
            r.1,
          )
      | inr out ↦ inr (
        find_entry-scan shape key ∙ ap some (settle_miss (scan h.entries key (route b n key)) out),
        λ s few holds. out s (laid.placed s key (omega (arith, few, shape.sized)) holds big),
      )
    ]
