-- ===== src/Feb/Unaligned.antt =====
-- Addresses that are not aligned: `qthread_empty` chooses the stripe of the aligned address, and
-- the other calls of src/feb.c that of the address as it was given.
use qthreads.Feb.State.{addrstat_new, Feb, Status, success, align, choose_stripe, feb_status}
use qthreads.Feb.Ops.{Pools, full_to_empty, empty}
use qthreads.Feb.Level.{level, feb_status-level}
use qthreads.Feb.Delivery.Calls.{put_same}
use qthreads.Prelude.{ℕ, ◌≡◌, ◌≢◌, refl, ◌∙◌, ap, true, none, some, on_true, on_none, arith}

-- What `qthread_empty` of `addr` leaves: an empty word in the aligned stripe, and nothing in the
-- stripe where the other calls look.
pub record Missed (addr : ℕ) (r : Feb × Status) : Type 0 where
  pub returns : r.1 ≡ success
  pub emptied :
      r.0.table (choose_stripe (align addr)) (align addr) ≡ some (full_to_empty addrstat_new)
  pub unseen : r.0.table (choose_stripe addr) (align addr) ≡ none

module _ (pools : Pools) (shep addr : ℕ) (s : Feb) where
  pub empty-Missed :
      choose_stripe addr ≢ choose_stripe (align addr)
      → pools.addrstat ≡ true
      → s.table (choose_stripe (align addr)) (align addr) ≡ none
      → s.table (choose_stripe addr) (align addr) ≡ none
      → Missed addr (empty pools shep addr s)
  unfolding empty
  empty-Missed apart room e f = on_none (Missed addr) _ e (
      on_true (Missed addr) _ room (record {
        returns = refl;
        emptied = put_same (choose_stripe (align addr)) (align addr) _ s;
        unseen = ground arith;
      }))

  -- Where the two stripes differ and neither holds the word, `qthread_empty` of an unaligned address
  -- returns success, and `qthread_feb_status` of the same address still says that the word is full.
  pub feb_status-empty_unaligned :
      choose_stripe addr ≢ choose_stripe (align addr)
      → pools.addrstat ≡ true
      → s.table (choose_stripe (align addr)) (align addr) ≡ none
      → s.table (choose_stripe addr) (align addr) ≡ none
      → let r = empty pools shep addr s in (r.1 ≡ success) × (feb_status addr r.0 ≡ true)
  feb_status-empty_unaligned apart room e f =
      let h = empty-Missed apart room e f in
      (h.returns, feb_status-level addr _ ∙ ap level h.unseen)
