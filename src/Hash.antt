-- ===== src/Hash.antt =====
-- src/ds/dictionary/hash.c on a machine with 64-bit pointers: `qt_hash64`, which chooses the
-- stripe of an address. A `uint64_t` is a number below 2 ^ 64, and the wrap-around is written out.
use Prim.Native.Nat.{bit_xor}
use qthreads.Prelude.{ℕ, ◌+◌, ◌-◌, ◌*◌, ◌/◌, ◌%◌, ◌^◌, ltb, if◌then◌else◌}

add64 : ℕ → ℕ → ℕ
add64 a b = (a + b) % 2 ^ 64

sub64 : ℕ → ℕ → ℕ
sub64 a b = (a + 2 ^ 64 - b) % 2 ^ 64

shl64 : ℕ → ℕ → ℕ
shl64 a k = a * 2 ^ k % 2 ^ 64

shr64 : ℕ → ℕ → ℕ
shr64 a k = a / 2 ^ k

-- `k.b[i]`, in little-endian order.
byte : ℕ → ℕ → ℕ
byte key i = key / 2 ^ (8 * i) % 256

-- `k.b[3] << 24` is computed as an `int` and sign-extended.
byte3 : ℕ → ℕ
byte3 b = if ltb b 128 then b * 2 ^ 24 else b * 2 ^ 24 + 2 ^ 64 - 2 ^ 32

pub record Words : Type 0 where
  pub a : ℕ
  pub b : ℕ
  pub c : ℕ

-- One line of the mixing steps, with its three shift distances.
mix_round : ℕ → ℕ → ℕ → Words → Words
unfolding sub64 shl64 shr64
mix_round r l q w =
    let a = bit_xor (sub64 (sub64 w.a w.b) w.c) (shr64 w.c r) in
    let b = bit_xor (sub64 (sub64 w.b w.c) a) (shl64 a l) in
    let c = bit_xor (sub64 (sub64 w.c a) b) (shr64 b q) in record { a = a; b = b; c = c }

unfoldable pub qt_hash64 : ℕ → ℕ
unfolding add64 byte byte3 mix_round
qt_hash64 key =
    let golden : ℕ = 0x9e37_79b9_7f4a_7c13 in
    let a = add64 (add64 golden (byte key 7 * 2 ^ 56 + byte key 6 * 2 ^ 48 + byte key 5 * 2 ^ 40)) (
      byte key 4 * 2 ^ 32
      + byte3 (byte key 3)
      + byte key 2 * 2 ^ 16
      + byte key 1 * 2 ^ 8
      + byte key 0) in
    let start : Words = record { a = a; b = golden; c = 0xdead_beef_cafe_babe + 8 } in
    let one = mix_round 43 9 8 start in
    let two = mix_round 38 23 5 one in
    let three = mix_round 35 49 11 two in (mix_round 12 18 22 three).c
