-- ===== src/Prelude/Int.antt =====
-- Signed integers over the native numbers: Go's int32 and int64 values, with the wrap-around of
-- each operation written out.
use Prim.Native.Nat.{ℕ, zero, suc, ◌+◌, ◌-◌, ◌*◌, ◌%◌, ◌^◌, ◌≤◌}
use mathlib.Core.Path.{◌≡◌}
use mathlib.Core.Logic.{◌↔◌}
use mathlib.Core.Bool.{Bool, true, false, not}
use native.Mathlib.Omega.{arith}
use vsphere_facade.Prelude.Tests.{ltb, not_lt→ltb, nat_beq, if◌then◌else◌, Eq}

-- `negsuc n` is -(n + 1).
pub data ℤ : Type 0 where
  pos : ℕ → ℤ
  negsuc : ℕ → ℤ

abbrev pub int_beq : ℤ → ℤ → Bool
int_beq (pos a) (pos b) = nat_beq a b
int_beq (pos a) (negsuc b) = false
int_beq (negsuc a) (pos b) = false
int_beq (negsuc a) (negsuc b) = nat_beq a b

pub int_beq_iff : (a b : ℤ) → (int_beq a b ≡ true) ↔ (a ≡ b)
int_beq_iff a b = ground arith

instance abbrev pub int_eq : Eq ℤ
int_eq = record { beq = int_beq; beq_iff = int_beq_iff }

-- `a < b`
abbrev pub ltb_ℤ : ℤ → ℤ → Bool
ltb_ℤ (pos a) (pos b) = ltb a b
ltb_ℤ (pos a) (negsuc b) = false
ltb_ℤ (negsuc a) (pos b) = true
ltb_ℤ (negsuc a) (negsuc b) = ltb b a

abbrev pub max_int32 : ℕ
max_int32 = 2 ^ 31 - 1

-- `n++` on an int32
abbrev pub inc_int32 : ℤ → ℤ
inc_int32 (pos n) = if nat_beq n max_int32 then negsuc max_int32 else pos (n + 1)
inc_int32 (negsuc zero) = pos 0
inc_int32 (negsuc (suc n)) = negsuc n

abbrev pub leb_ℤ : ℤ → ℤ → Bool
leb_ℤ a b = not (ltb_ℤ b a)

-- The values that an int32 has.
abbrev pub InInt32 : ℤ → Type 0
InInt32 (pos n) = n ≤ max_int32
InInt32 (negsuc n) = n ≤ max_int32

abbrev pub max_int64 : ℕ
max_int64 = 2 ^ 63 - 1

abbrev pub InInt64 : ℤ → Type 0
InInt64 (pos n) = n ≤ max_int64
InInt64 (negsuc n) = n ≤ max_int64

-- The two's complement of an int64, and back.
abbrev pub bits64 : ℤ → ℕ
bits64 (pos n) = n % 2 ^ 64
bits64 (negsuc n) = 2 ^ 64 - 1 - n % 2 ^ 64

abbrev pub of_bits64 : ℕ → ℤ
of_bits64 n = if ltb max_int64 n then negsuc (2 ^ 64 - n - 1) else pos n

-- `a * k` on int64 for a constant `k`, and `a + b`
unfoldable pub mul_int64 : ℤ → ℕ → ℤ
mul_int64 a k = of_bits64 ((bits64 a * k) % 2 ^ 64)

unfoldable pub add_int64 : ℤ → ℤ → ℤ
add_int64 a b = of_bits64 ((bits64 a + bits64 b) % 2 ^ 64)

pub mul_int64-pos :
    (n k : ℕ) → n * k ≤ max_int64 → n ≤ max_int64 → mul_int64 (pos n) k ≡ pos (n * k)
unfolding mul_int64
mul_int64-pos n k h l =
    let low : n % 2 ^ 64 ≡ n = omega arith in
    let fits : (n * k) % 2 ^ 64 ≡ n * k = omega arith in
    rw (low, fits, not_lt→ltb (n * k) max_int64 h)

pub add_int64-pos : (n k : ℕ) → n + k ≤ max_int64 → add_int64 (pos n) (pos k) ≡ pos (n + k)
unfolding add_int64
add_int64-pos n k h =
    let low : n % 2 ^ 64 ≡ n = omega arith in
    let high : k % 2 ^ 64 ≡ k = omega arith in
    let fits : (n + k) % 2 ^ 64 ≡ n + k = omega arith in
    rw (low, high, fits, not_lt→ltb (n + k) max_int64 h)
