-- ===== src/Feb/Blocking.antt =====
-- The calls of src/feb.c that cannot go on: the blocking ones join a queue, and the others fail.
use qthreads.Feb.State.{
  AddrStat, Feb, feb_blocked, Status, success, opfail, blocked, Qthread, align, choose_stripe, put,
  copy_word, set_state,
}
use qthreads.Feb.Ops.{
  Pools, write_ef_locked, write_ef, write_ef_nb, read_ff, read_ff_nb, read_fe_locked, read_fe,
}
use qthreads.Feb.Delivery.Calls.{put_same}
use qthreads.Feb.Level.{level}
use qthreads.Prelude.{
  ℕ, ◌≡◌, refl, ◌∙◌, ap, true, false, some, ◌∷◌, update_same, on_true, on_false, on_some, if_both,
  option_both, inl, inr, ◌⊎◌,
}

-- Thread `me` waits: memory and ready queues are as before, the thread is blocked, and the entry
-- of the word is `m`.
pub record Waits (me bin key : ℕ) (m : AddrStat) (s : Feb) (r : Feb × Status) : Type 0 where
  pub returns : r.1 ≡ blocked
  pub mem : r.0.mem ≡ s.mem
  pub ready : r.0.ready ≡ s.ready
  pub state : (r.0.threads me).thread_state ≡ feb_blocked
  pub entry : r.0.table bin key ≡ some m

abbrev pub join_efq : ℕ → ℕ → AddrStat → AddrStat
join_efq a me m = record m { efq = record { addr = a; waiter = me } ∷ m.efq }

abbrev pub join_feq : ℕ → ℕ → AddrStat → AddrStat
join_feq a me m = record m { feq = record { addr = a; waiter = me } ∷ m.feq }

abbrev pub join_ffq : ℕ → ℕ → AddrStat → AddrStat
join_ffq a me m = record m { ffq = record { addr = a; waiter = me } ∷ m.ffq }

waiting :
    (me bin key : ℕ) (m : AddrStat) (s : Feb)
    → Waits me bin key m s (set_state me feb_blocked (put bin key (some m) s), blocked)
waiting me bin key m s = record {
  returns = refl;
  mem = refl;
  ready = refl;
  state =
      ap Qthread.thread_state
        (update_same s.threads me (record (s.threads me) { thread_state = feb_blocked }));
  entry = put_same bin key (some m) s;
}

module _ (pools : Pools) (me dest src : ℕ) (s : Feb) (room : pools.addrres ≡ true) where
  -- Where the pools have room, `qthread_writeEF` of a word with a full entry blocks: its source joins
  -- the EFQ at the head, the caller is blocked, and memory and ready queues are as before.
  pub write_ef-Waits :
      (m : AddrStat)
      → s.table (choose_stripe dest) (align dest) ≡ some m
      → m.full ≡ true
      → Waits me
          (choose_stripe dest)
          (align dest)
          (join_efq src me m)
          s
          (write_ef pools me dest src s)
  unfolding write_ef write_ef_locked
  write_ef-Waits m e f =
      let bin = choose_stripe dest in
      let P = Waits me bin (align dest) (join_efq src me m) s in
      on_some P _ _ e (on_true P _ f (on_true P _ room (waiting me bin (align dest) _ s)))

  -- `qthread_readFE` of an empty word waits at the head of the FEQ with its destination.
  pub read_fe-Waits :
      (m : AddrStat)
      → s.table (choose_stripe src) (align src) ≡ some m
      → m.full ≡ false
      → Waits me
          (choose_stripe src)
          (align src)
          (join_feq dest me m)
          s
          (read_fe pools me dest src s)
  unfolding read_fe read_fe_locked
  read_fe-Waits m e f =
      let bin = choose_stripe src in
      let P = Waits me bin (align src) (join_feq dest me m) s in
      on_some P _ _ e (on_false P _ f (on_true P _ room (waiting me bin (align src) _ s)))

  -- `qthread_readFF` of an empty word waits at the head of the FFQ with its destination.
  pub read_ff-Waits :
      (m : AddrStat)
      → s.table (choose_stripe src) (align src) ≡ some m
      → m.full ≡ false
      → Waits me
          (choose_stripe src)
          (align src)
          (join_ffq dest me m)
          s
          (read_ff pools me dest src s)
  unfolding read_ff
  read_ff-Waits m e f =
      let bin = choose_stripe src in
      let P = Waits me bin (align src) (join_ffq dest me m) s in
      on_some P _ _ e (on_false P _ f (on_true P _ room (waiting me bin (align src) _ s)))

-- The non-blocking calls: they fail exactly when the state of the word is the wrong one, and a
-- failed call changes nothing.
pub write_ef_nb-opfail :
    (me dest src : ℕ) (s : Feb)
    → let full = level (s.table (choose_stripe dest) (align dest)) in
      ((full ≡ true) × (write_ef_nb me dest src s ≡ (s, opfail)))
      ⊎ ((full ≡ false) × ((write_ef_nb me dest src s).1 ≡ success))
unfolding write_ef_nb
write_ef_nb-opfail me dest src s =
    let o = s.table (choose_stripe dest) (align dest) in
    let P : Feb × Status → Type 0 =
      λ r. ((level o ≡ true) × (r ≡ (s, opfail))) ⊎ ((level o ≡ false) × (r.1 ≡ success)) in
    option_both P o (λ e. inl (ap level e, refl))
      (λ m e. if_both P m.full (λ f. inl (ap level e ∙ f, refl)) (λ f. inr (ap level e ∙ f, refl)))

pub read_ff_nb-opfail :
    (dest src : ℕ) (s : Feb)
    → let full = level (s.table (choose_stripe src) (align src)) in
      ((full ≡ false) × (read_ff_nb dest src s ≡ (s, opfail)))
      ⊎ ((full ≡ true)
          × (read_ff_nb dest src s ≡ (record s { mem = copy_word dest src s.mem }, success)))
unfolding read_ff_nb
read_ff_nb-opfail dest src s =
    let o = s.table (choose_stripe src) (align src) in
    let P : Feb × Status → Type 0 = λ r.
      ((level o ≡ false) × (r ≡ (s, opfail)))
      ⊎ ((level o ≡ true) × (r ≡ (record s { mem = copy_word dest src s.mem }, success))) in
    option_both P o (λ e. inr (ap level e, refl))
      (λ m e. if_both P m.full (λ f. inr (ap level e ∙ f, refl)) (λ f. inl (ap level e ∙ f, refl)))
