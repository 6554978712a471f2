-- ===== src/Feb/Delivery.antt =====
-- What a write that fills a word delivers: the word itself, every waiting reader's copy, and the
-- copy of the one waiting reader that empties the word again.
pub mod Calls
use qthreads.Feb.State.{
  AddrRes, AddrStat, Feb, Status, success, align, choose_stripe, put, is_nil, is_nascent, copy_word,
  schedule, feb_status,
}
use qthreads.Feb.Lock.{
  Locked, wake_ff, drain_ffq, set_full, wake_fe, fill_inner, rounds, gotlock_fill,
}
use qthreads.Feb.Ops.{Pools, write_ef_locked, write_ef}
use qthreads.Feb.Cascade.{IsSettled, filled, filled-m, List-cases}
use qthreads.Feb.Cascade.Closed.{fill_idle, fill_hands_over}
use qthreads.Feb.Level.{level, SameWords, release-SameWords, feb_status-level}
use qthreads.Prelude.{
  ℕ, zero, suc, ◌+◌, ◌-◌, ◌≡◌, ◌≢◌, refl, sym, subst, ◌∙◌, ap, Bool, true, false, ◌&&◌, ◌||◌, some,
  List, [], ◌∷◌, ◌==◌, if◌then◌else◌, update, inl, inr, Bool-cases, if_both, length, arith,
}

copy_word-src : (d r : ℕ) (mem : ℕ → ℕ) → copy_word d r mem r ≡ mem r
unfolding copy_word
copy_word-src d r mem = ground arith

pub copy_word-dest : (d r : ℕ) (mem : ℕ → ℕ) → d ≢ 0 → copy_word d r mem d ≡ mem r
unfolding copy_word
copy_word-dest d r mem h = ground arith

-- A copy from a word that holds `v` leaves `v` where it stands.
copy_word_keeps : (d r a v : ℕ) (mem : ℕ → ℕ) → mem r ≡ v → mem a ≡ v → copy_word d r mem a ≡ v
unfolding copy_word
copy_word_keeps d r a v mem hr ha = ground arith

-- A waiter with a destination has got `v` there.
abbrev pub Got : ℕ → (ℕ → ℕ) → AddrRes → Type 0
Got v mem x = x.addr ≢ 0 → mem (x.addr) ≡ v

abbrev pub AllGot : ℕ → (ℕ → ℕ) → List AddrRes → Type 0
AllGot v mem [] = Unit {0}
AllGot v mem (x ∷ q) = Got v mem x × AllGot v mem q

abbrev pub HeadGot : ℕ → (ℕ → ℕ) → List AddrRes → Type 0
HeadGot v mem [] = Unit {0}
HeadGot v mem (x ∷ q) = Got v mem x

wake_ff-mem :
    (shep maddr : ℕ) (x : AddrRes) (q : List AddrRes) (l : Locked)
    → (wake_ff shep maddr x q l).feb.mem ≡ copy_word x.addr maddr l.feb.mem
unfolding wake_ff schedule
wake_ff-mem shep maddr x q l =
    if_both (λ (r : Locked). r.feb.mem ≡ copy_word x.addr maddr l.feb.mem)
      (is_nascent (l.feb.threads x.waiter).thread_state) (λ t. refl) (λ t. refl)

drain-mem :
    (shep maddr a v : ℕ) (q : List AddrRes) (l : Locked)
    → l.feb.mem maddr ≡ v
    → l.feb.mem a ≡ v
    → (drain_ffq shep maddr q l).feb.mem a ≡ v
unfolding drain_ffq
drain-mem shep maddr a v [] l hm ha = ha
drain-mem shep maddr a v (x ∷ q) l hm ha =
    let e = wake_ff-mem shep maddr x q l in
    drain-mem shep maddr a v q (wake_ff shep maddr x q l)
      (ap (λ (f : ℕ → ℕ). f maddr) e ∙ copy_word_keeps x.addr maddr maddr v l.feb.mem hm hm)
      (ap (λ (f : ℕ → ℕ). f a) e ∙ copy_word_keeps x.addr maddr a v l.feb.mem hm ha)

drain-AllGot :
    (shep maddr v : ℕ) (q : List AddrRes) (l : Locked)
    → l.feb.mem maddr ≡ v
    → AllGot v (drain_ffq shep maddr q l).feb.mem q
unfolding drain_ffq
drain-AllGot shep maddr v [] l h = tt
drain-AllGot shep maddr v (x ∷ q) l h =
    let e = wake_ff-mem shep maddr x q l in
    let next = wake_ff shep maddr x q l in
    let kept : next.feb.mem maddr ≡ v =
      ap (λ (f : ℕ → ℕ). f maddr) e ∙ copy_word_keeps x.addr maddr maddr v l.feb.mem h h in
    (
      λ nz.
          drain-mem shep maddr x.addr v q next kept
            (ap (λ (f : ℕ → ℕ). f (x.addr)) e ∙ copy_word-dest x.addr maddr l.feb.mem nz ∙ h),
      drain-AllGot shep maddr v q next kept,
    )

-- A settled empty word that is filled: what it holds afterwards and who has got it.
pub record Delivers (maddr v : ℕ) (m : AddrStat) (l : Locked) : Type 0 where
  pub word : l.feb.mem maddr ≡ v
  pub readers : AllGot v l.feb.mem m.ffq
  pub taker : HeadGot v l.feb.mem m.feq
  pub state : l.m.full ≡ is_nil m.feq

filled-Delivers :
    (shep maddr v : ℕ) (l : Locked) → l.feb.mem maddr ≡ v → (filled shep maddr l).feb.mem maddr ≡ v
filled-Delivers shep maddr v l h = drain-mem shep maddr maddr v l.m.ffq (set_full true l) h h

AllGot-copy :
    (d r v : ℕ) (mem : ℕ → ℕ) (q : List AddrRes)
    → mem r ≡ v
    → AllGot v mem q
    → AllGot v (copy_word d r mem) q
AllGot-copy d r v mem [] h g = tt
AllGot-copy d r v mem (x ∷ q) h g =
    (λ nz. copy_word_keeps d r x.addr v mem h (g.0 nz), AllGot-copy d r v mem q h g.1)

pub fill_inner-Delivers :
    (shep maddr v : ℕ) (l : Locked)
    → l.m.efq ≡ []
    → l.feb.mem maddr ≡ v
    → Delivers maddr v l.m (fill_inner (rounds l.m) shep maddr l)
unfolding wake_fe schedule
fill_inner-Delivers shep maddr v l none_writes h =
    let got = drain-AllGot shep maddr v l.m.ffq (set_full true l) h in
    let word = filled-Delivers shep maddr v l h in
    elim (List-cases l.m.feq) [
      | inl e ↦
          let fuel : rounds l.m ≡ suc (rounds l.m - 1) = omega arith in
          let run : fill_inner (rounds l.m) shep maddr l ≡ filled shep maddr l =
            ap (λ n. fill_inner n shep maddr l) fuel ∙ fill_idle (rounds l.m - 1) shep maddr l e in
          subst (Delivers maddr v l.m) (sym run) (record {
            word = word;
            readers = got;
            taker = subst (HeadGot v (filled shep maddr l).feb.mem) (sym e) tt;
            state = ap AddrStat.full (filled-m shep maddr l) ∙ sym (ap is_nil e);
          })
      | inr (x, q, e) ↦
          let fuel : rounds l.m ≡ suc (suc (rounds l.m - 2)) = omega (arith, ap length e) in
          let t = filled shep maddr l in
          let run : fill_inner (rounds l.m) shep maddr l
              ≡ set_full false (wake_fe shep maddr x q t) =
            ap (λ n. fill_inner n shep maddr l) fuel
            ∙ fill_hands_over (rounds l.m - 2) shep maddr l x q e none_writes in
          subst (Delivers maddr v l.m) (sym run) (record {
            word = copy_word_keeps x.addr maddr maddr v t.feb.mem word word;
            readers = AllGot-copy x.addr maddr v t.feb.mem l.m.ffq word got;
            taker =
                subst (HeadGot v (copy_word x.addr maddr t.feb.mem)) (sym e)
                  (λ nz. copy_word-dest x.addr maddr t.feb.mem nz ∙ word);
            state = sym (ap is_nil e);
          })
    ]
