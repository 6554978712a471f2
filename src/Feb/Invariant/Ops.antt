-- ===== src/Feb/Invariant/Ops.antt =====
-- Every call of src/feb.c keeps the invariant, and so does every sequence of calls.
use qthreads.Feb.State.{AddrStat, addrstat_new, Feb, Status, align, choose_stripe}
use qthreads.Feb.Ops.{
  Pools, full_to_empty, empty, fill, write_f, write_ef_locked, write_ef, write_ef_nb, read_ff,
  read_ff_nb, read_fe_locked, read_fe, read_fe_nb_locked, read_fe_nb,
}
use qthreads.Feb.Cascade.{IsSettled}
use qthreads.Feb.Invariant.{
  IsValid, new-IsSettled, put-IsValid, gotlock_fill-IsValid, gotlock_empty-IsValid,
}
use qthreads.Prelude.{ℕ, refl, if_both, option_both}

abbrev pub Valid : Feb × Status → Type 0
Valid r = IsValid r.0

module _ (pools : Pools) (me : ℕ) (dest src : ℕ) where
  -- A writer joins the EFQ of a full word only.
  write_ef_locked-IsValid :
      (m : AddrStat) (t : Feb)
      → IsSettled m
      → IsValid t
      → IsValid (write_ef_locked pools me dest src m t).0
  unfolding write_ef_locked
  write_ef_locked-IsValid m t h w =
      if_both Valid m.full
        (λ f.
          if_both Valid pools.addrres
            (λ r.
              put-IsValid (choose_stripe dest) (align dest) _ t
                (record { no_reader = h.no_reader; no_writer = λ g. cc }) w)
            (λ r. w))
        (λ f. gotlock_fill-IsValid _ _ _ m _ w)

  pub write_ef-IsValid : (s : Feb) → IsValid s → IsValid (write_ef pools me dest src s).0
  unfolding write_ef
  write_ef-IsValid s v =
      option_both Valid (s.table (choose_stripe dest) (align dest))
        (λ e.
          if_both Valid pools.addrstat
            (λ r.
              write_ef_locked-IsValid addrstat_new _ new-IsSettled
                (put-IsValid (choose_stripe dest) (align dest) addrstat_new s new-IsSettled v))
            (λ r. v))
        (λ m e. write_ef_locked-IsValid m s (v _ _ m e) v)

  read_fe_locked-IsValid :
      (m : AddrStat) (t : Feb)
      → IsSettled m
      → IsValid t
      → IsValid (read_fe_locked pools me dest src m t).0
  unfolding read_fe_locked
  read_fe_locked-IsValid m t h w =
      if_both Valid m.full (λ f. gotlock_empty-IsValid _ _ _ m _ w)
        (λ f.
          if_both Valid pools.addrres
            (λ r.
              put-IsValid (choose_stripe src) (align src) _ t
                (record { no_reader = λ g. cc; no_writer = h.no_writer }) w)
            (λ r. w))

  pub read_fe-IsValid : (s : Feb) → IsValid s → IsValid (read_fe pools me dest src s).0
  unfolding read_fe
  read_fe-IsValid s v =
      option_both Valid (s.table (choose_stripe src) (align src))
        (λ e.
          if_both Valid pools.addrstat
            (λ r.
              read_fe_locked-IsValid addrstat_new _ new-IsSettled
                (put-IsValid (choose_stripe src) (align src) addrstat_new s new-IsSettled v))
            (λ r. v))
        (λ m e. read_fe_locked-IsValid m s (v _ _ m e) v)

  read_fe_nb_locked-IsValid :
      (m : AddrStat) (t : Feb) → IsValid t → IsValid (read_fe_nb_locked me dest src m t).0
  unfolding read_fe_nb_locked
  read_fe_nb_locked-IsValid m t w =
      if_both Valid m.full (λ f. gotlock_empty-IsValid _ _ _ m _ w) (λ f. w)

  pub read_fe_nb-IsValid : (s : Feb) → IsValid s → IsValid (read_fe_nb pools me dest src s).0
  unfolding read_fe_nb
  read_fe_nb-IsValid s v =
      option_both Valid (s.table (choose_stripe src) (align src))
        (λ e.
          if_both Valid pools.addrstat
            (λ r.
              read_fe_nb_locked-IsValid addrstat_new _
                (put-IsValid (choose_stripe src) (align src) addrstat_new s new-IsSettled v))
            (λ r. v))
        (λ m e. read_fe_nb_locked-IsValid m s v)

  -- A reader joins the FFQ of an empty word only.
  pub read_ff-IsValid : (s : Feb) → IsValid s → IsValid (read_ff pools me dest src s).0
  unfolding read_ff
  read_ff-IsValid s v =
      option_both Valid (s.table (choose_stripe src) (align src)) (λ e. v)
        (λ m e.
          if_both Valid m.full (λ f. v)
            (λ f.
              if_both Valid pools.addrres
                (λ r.
                  put-IsValid (choose_stripe src) (align src) _ s
                    (record { no_reader = λ g. cc; no_writer = (v _ _ m e).no_writer }) v)
                (λ r. v)))

module _ (me : ℕ) (dest src : ℕ) (s : Feb) (v : IsValid s) where
  pub write_ef_nb-IsValid : IsValid (write_ef_nb me dest src s).0
  unfolding write_ef_nb
  write_ef_nb-IsValid =
      option_both Valid (s.table (choose_stripe dest) (align dest)) (λ e. v)
        (λ m e. if_both Valid m.full (λ f. v) (λ f. gotlock_fill-IsValid _ _ _ m _ v))

  pub write_f-IsValid : IsValid (write_f me dest src s).0
  unfolding write_f
  write_f-IsValid =
      option_both Valid (s.table (choose_stripe dest) (align dest)) (λ e. v)
        (λ m e. gotlock_fill-IsValid _ _ _ m _ v)

  pub read_ff_nb-IsValid : IsValid (read_ff_nb dest src s).0
  unfolding read_ff_nb
  read_ff_nb-IsValid =
      option_both Valid (s.table (choose_stripe src) (align src)) (λ e. v)
        (λ m e. if_both Valid m.full (λ f. v) (λ f. v))

  pub fill-IsValid : IsValid (fill me dest s).0
  unfolding fill
  fill-IsValid =
      option_both Valid (s.table (choose_stripe dest) (align dest)) (λ e. v)
        (λ m e. gotlock_fill-IsValid _ _ _ m _ v)

  pub empty-IsValid : (pools : Pools) → IsValid (empty pools me dest s).0
  unfolding empty
  empty-IsValid pools =
      option_both Valid (s.table (choose_stripe (align dest)) (align dest))
        (λ e.
          if_both Valid pools.addrstat
            (λ r.
              put-IsValid (choose_stripe (align dest)) (align dest) (full_to_empty addrstat_new) s
                (record { no_reader = λ g. cc; no_writer = λ g. refl }) v)
            (λ r. v))
        (λ m e. gotlock_empty-IsValid _ _ _ m _ v)
