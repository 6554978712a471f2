-- ===== src/Feb/Lock.antt =====
-- What src/feb.c does under the lock of one address: `qthread_gotlock_fill_inner` and
-- `qthread_gotlock_empty_inner`, which call one another, and the work after the lock is released.
use qthreads.Feb.State.{
  Qthread, AddrRes, AddrStat, Feb, new, nascent, is_nascent, is_nil, put, copy_word, enqueue,
  schedule, align, choose_stripe,
}
use qthreads.Prelude.{
  ℕ, zero, suc, ◌+◌, Bool, true, false, ◌&&◌, none, some, List, [], ◌∷◌, ◌++◌, length,
  if◌then◌else◌, update,
}

-- `m` is locked: the table's copy of it is stale until it is written back. `precond_tasks` is the
-- chain of nascent threads, without its empty head.
pub record Locked : Type 0 where
  pub feb : Feb
  pub m : AddrStat
  pub precond_tasks : List AddrRes

-- One turn of the loop that empties the FFQ.
unfoldable pub wake_ff : ℕ → ℕ → AddrRes → List AddrRes → Locked → Locked
wake_ff shep maddr x q l =
    let s = record (l.feb) { mem = copy_word x.addr maddr l.feb.mem } in
    if is_nascent (l.feb.threads x.waiter).thread_state
    then record { feb = s; m = record (l.m) { ffq = q }; precond_tasks = l.precond_tasks ++ x ∷ [] }
    else record {
      feb = schedule x.waiter shep s;
      m = record (l.m) { ffq = q };
      precond_tasks = l.precond_tasks;
    }

unfoldable pub drain_ffq : ℕ → ℕ → List AddrRes → Locked → Locked
drain_ffq shep maddr [] l = l
drain_ffq shep maddr (x ∷ q) l = drain_ffq shep maddr q (wake_ff shep maddr x q l)

abbrev pub set_full : Bool → Locked → Locked
set_full b l = record l { m = record (l.m) { full = b } }

-- The head of the FEQ gets the word.
unfoldable pub wake_fe : ℕ → ℕ → AddrRes → List AddrRes → Locked → Locked
wake_fe shep maddr x q l = record l {
  feb = schedule x.waiter shep (record (l.feb) { mem = copy_word x.addr maddr l.feb.mem });
  m = record (l.m) { feq = q };
}

-- The head of the EFQ writes its word.
unfoldable pub wake_ef : ℕ → ℕ → AddrRes → List AddrRes → Locked → Locked
wake_ef shep maddr x q l = record l {
  feb = schedule x.waiter shep (record (l.feb) { mem = copy_word maddr x.addr l.feb.mem });
  m = record (l.m) { efq = q };
}

-- The two functions on fuel, which is spent by one at each call of the other.
unfoldable mutual
  pub fill_inner : ℕ → ℕ → ℕ → Locked → Locked
  fill_inner zero shep maddr l = l
  fill_inner (suc n) shep maddr l =
      let t = drain_ffq shep maddr l.m.ffq (set_full true l) in
      elim t.m.feq [ [] ↦ t | x ∷ q ↦ empty_inner n shep maddr (wake_fe shep maddr x q t) ]

  pub empty_inner : ℕ → ℕ → ℕ → Locked → Locked
  empty_inner zero shep maddr l = l
  empty_inner (suc n) shep maddr l =
      let t = set_full false l in
      elim l.m.efq [ [] ↦ t | x ∷ q ↦ fill_inner n shep maddr (wake_ef shep maddr x q t) ]

-- Each round takes a waiter off the EFQ or the FEQ.
abbrev pub rounds : AddrStat → ℕ
rounds m = length m.feq + length m.efq + 1

-- `qthread_FEB_remove`
unfoldable pub feb_remove : ℕ → Feb → Feb
feb_remove maddr s = elim (s.table (choose_stripe maddr) maddr) [
  | none ↦ s
  | some m ↦
      if is_nil m.feq && (is_nil m.efq && (is_nil m.ffq && m.full))
      then put (choose_stripe maddr) maddr none s
      else s
]

-- `qthread_check_feb_preconds`: true where it returns 1, the thread waiting on a further word.
unfoldable pub check_preconds : ℕ → List ℕ → Feb → Feb × Bool
check_preconds t [] s = (
  record s {
    threads = update s.threads t (record (s.threads t) { thread_state = new; preconds = [] });
  },
  false,
)
check_preconds t (p ∷ ps) s =
    let rest = check_preconds t ps s in
    elim (s.table (choose_stripe p) (align p)) [
      | none ↦ rest
      | some m ↦ if m.full then rest else (
        put (choose_stripe p) (align p)
            (some (record m { ffq = record { addr = 0; waiter = t } ∷ m.ffq }))
            (record s {
              threads =
                  update s.threads t
                    (record (s.threads t) { thread_state = nascent; preconds = p ∷ ps });
            }),
        true,
      )
    ]

unfoldable pub check_feb_preconds : ℕ → Feb → Feb × Bool
check_feb_preconds t s = check_preconds t (s.threads t).preconds s

-- Where a thread whose preconditions all hold is put.
unfoldable pub launch_shepherd : Qthread → ℕ → ℕ
launch_shepherd w shep = elim w.target_shepherd [ none ↦ shep | some d ↦ d ]

-- `qthread_precond_launch`
unfoldable pub precond_launch : ℕ → List AddrRes → Feb → Feb
precond_launch shep [] s = s
precond_launch shep (x ∷ xs) s =
    let (s', waits) = check_feb_preconds x.waiter s in
    precond_launch shep xs
      (if waits then s' else enqueue (launch_shepherd (s'.threads x.waiter) shep) x.waiter s')

-- The end of both functions at the outer call: unlock, launch, remove.
unfoldable pub release : ℕ → ℕ → ℕ → Bool → Locked → Feb
release bin shep maddr removeable l =
    let s = precond_launch shep l.precond_tasks (put bin maddr (some l.m) l.feb) in
    if removeable then feb_remove maddr s else s

unfoldable pub gotlock_fill : ℕ → ℕ → ℕ → AddrStat → Feb → Feb
gotlock_fill bin shep maddr m s =
    let l = fill_inner (rounds m) shep maddr (record { feb = s; m = m; precond_tasks = [] }) in
    release bin shep maddr (is_nil l.m.efq && (is_nil l.m.feq && l.m.full)) l

unfoldable pub gotlock_empty : ℕ → ℕ → ℕ → AddrStat → Feb → Feb
gotlock_empty bin shep maddr m s =
    let l = empty_inner (rounds m) shep maddr (record { feb = s; m = m; precond_tasks = [] }) in
    release bin shep maddr (l.m.full && (is_nil l.m.efq && (is_nil l.m.feq && is_nil l.m.ffq))) l
