-- ===== src/Base/Words.antt =====
-- Go's int32 and int64 as the integers that they stand for: each operation wraps its exact result.
use Prim.Native.Nat.{ℕ, ◌-◌, ◌%◌}
use mathlib.Core.Path.{◌≡◌}
use native.Mathlib.Omega.{arith}
use sunwukong.Base.Tests.{ltb, if◌then◌else◌}
use sunwukong.Base.Int.{ℤ, pos, negsuc, ◌+ℤ◌, ◌-ℤ◌, ◌*ℤ◌, quot_ℤ, ◌≤ℤ◌, int_laws}

-- The bit pattern below 2 ^ 32 as a signed number.
abbrev signed32 : ℕ → ℤ
signed32 u = if ltb u 0x8000_0000 then pos u else negsuc (0xffff_ffff - u)

unfoldable pub wrap32 : ℤ → ℤ
wrap32 (pos n) = signed32 (n % 0x1_0000_0000)
wrap32 (negsuc n) = signed32 (0xffff_ffff - n % 0x1_0000_0000)

abbrev signed64 : ℕ → ℤ
signed64 u = if ltb u 0x8000_0000_0000_0000 then pos u else negsuc (0xffff_ffff_ffff_ffff - u)

unfoldable pub wrap64 : ℤ → ℤ
wrap64 (pos n) = signed64 (n % 0x1_0000_0000_0000_0000)
wrap64 (negsuc n) = signed64 (0xffff_ffff_ffff_ffff - n % 0x1_0000_0000_0000_0000)

abbrev pub max_int32 : ℤ
max_int32 = pos 0x7fff_ffff

abbrev pub min_int32 : ℤ
min_int32 = negsuc 0x7fff_ffff

abbrev pub IsInt32 : ℤ → Type 0
IsInt32 x = (min_int32 ≤ℤ x) × (x ≤ℤ max_int32)

abbrev pub max_int64 : ℤ
max_int64 = pos 0x7fff_ffff_ffff_ffff

abbrev pub min_int64 : ℤ
min_int64 = negsuc 0x7fff_ffff_ffff_ffff

abbrev pub IsInt64 : ℤ → Type 0
IsInt64 x = (min_int64 ≤ℤ x) × (x ≤ℤ max_int64)

infixl 65 ◌+32◌ ◌-32◌ ◌+64◌
unfoldable pub ◌+32◌ : ℤ → ℤ → ℤ
a +32 b = wrap32 (a +ℤ b)

unfoldable pub ◌-32◌ : ℤ → ℤ → ℤ
a -32 b = wrap32 (a -ℤ b)

unfoldable pub ◌+64◌ : ℤ → ℤ → ℤ
a +64 b = wrap64 (a +ℤ b)

unfoldable pub mul64 : ℤ → ℤ → ℤ
mul64 a b = wrap64 (a *ℤ b)

unfoldable pub quot64 : ℤ → ℤ → ℤ
quot64 a b = wrap64 (quot_ℤ a b)

pub wrap32_self : (x : ℤ) → IsInt32 x → wrap32 x ≡ x
unfolding wrap32
wrap32_self (pos n) h = ground arith
wrap32_self (negsuc n) h = ground arith

pub wrap32-IsInt32 : (x : ℤ) → IsInt32 (wrap32 x)
unfolding wrap32
wrap32-IsInt32 (pos n) = ground arith
wrap32-IsInt32 (negsuc n) = ground arith

pub wrap32-add : (x y : ℤ) → wrap32 (wrap32 x +ℤ y) ≡ wrap32 (x +ℤ y)
unfolding wrap32 ◌+ℤ◌
wrap32-add (pos n) (pos m) = ground arith
wrap32-add (pos n) (negsuc m) = ground arith
wrap32-add (negsuc n) (pos m) = ground arith
wrap32-add (negsuc n) (negsuc m) = ground arith

pub wrap32-sub : (x y : ℤ) → wrap32 (x -ℤ wrap32 y) ≡ wrap32 (x -ℤ y)
unfolding wrap32 ◌-ℤ◌
wrap32-sub (pos n) (pos m) = ground arith
wrap32-sub (pos n) (negsuc m) = ground arith
wrap32-sub (negsuc n) (pos m) = ground arith
wrap32-sub (negsuc n) (negsuc m) = ground arith

pub wrap64_self : (x : ℤ) → IsInt64 x → wrap64 x ≡ x
unfolding wrap64
wrap64_self (pos n) h = ground arith
wrap64_self (negsuc n) h = ground arith

quot_ℤ-IsInt64 : (a : ℤ) (n : ℕ) → IsInt64 a → IsInt64 (quot_ℤ a (pos n))
unfolding quot_ℤ
quot_ℤ-IsInt64 (pos m) n h = (ground arith, ground arith)
quot_ℤ-IsInt64 (negsuc m) n h = (ground arith, ground arith)

-- A quotient by a natural number fits where its dividend does.
pub quot64_lem : (a : ℤ) (n : ℕ) → IsInt64 a → quot64 a (pos n) ≡ quot_ℤ a (pos n)
unfolding quot64
quot64_lem a n h = wrap64_self (quot_ℤ a (pos n)) (quot_ℤ-IsInt64 a n h)

pub wrap64-add : (x y : ℤ) → wrap64 (wrap64 x +ℤ y) ≡ wrap64 (x +ℤ y)
unfolding wrap64 ◌+ℤ◌
wrap64-add (pos n) (pos m) = ground arith
wrap64-add (pos n) (negsuc m) = ground arith
wrap64-add (negsuc n) (pos m) = ground arith
wrap64-add (negsuc n) (negsuc m) = ground arith

pub +64_right_comm : (a b c : ℤ) → a +64 b +64 c ≡ a +64 c +64 b
unfolding ◌+64◌
+64_right_comm a b c =
    let e : a +ℤ b +ℤ c ≡ a +ℤ c +ℤ b = omega int_laws in
    rw (wrap64-add (a +ℤ b) c, wrap64-add (a +ℤ c) b, e)
