-- ===== src/Float/Rational.antt =====
-- Fractions as an instance of `Float`, on which the model runs: a denominator of 0 stands for NaN.
use sunwukong.Float.Defs.{Float}
use sunwukong.Base.{ℕ, suc, ◌+◌, ◌*◌, ◌/◌, ◌-◌, Bool, false, if◌then◌else◌, leb}
use sunwukong.Base.Int.{
  ℤ, pos, negsuc, pos_part, neg_part, sub_ℕ, ◌+ℤ◌, ◌-ℤ◌, ◌*ℤ◌, quot_ℤ, ltb_ℤ, leb_ℤ,
}
use sunwukong.Base.Words.{wrap32, wrap64}

pub record Fraction : Type 0 where
  pub num : ℤ
  pub den : ℕ

abbrev pub frac : ℤ → ℕ → Fraction
frac n d = record { num = n; den = d }

abbrev div_by : ℤ → ℕ → ℤ → ℕ → Fraction
div_by a b (pos c) d = frac (a *ℤ pos d) (b * c)
div_by a b (negsuc c) d = frac (a *ℤ (pos 0 -ℤ pos d)) (b * suc c)

abbrev ceil_of : ℤ → ℕ → ℤ
ceil_of (pos n) d = pos ((n + d - 1) / d)
ceil_of (negsuc n) d = sub_ℕ 0 (suc n / d)

-- A comparison with NaN is false.
abbrev compare_by : (ℤ → ℤ → Bool) → Fraction → Fraction → Bool
compare_by f x y =
    if leb (x.den * y.den) 0 then false else f (x.num *ℤ pos y.den) (y.num *ℤ pos x.den)

instance abbrev pub fraction_float : Float Fraction
fraction_float = record {
  of_int = λ x. frac x 1;
  add = λ x y. frac (x.num *ℤ pos y.den +ℤ y.num *ℤ pos x.den) (x.den * y.den);
  sub = λ x y. frac (x.num *ℤ pos y.den -ℤ y.num *ℤ pos x.den) (x.den * y.den);
  mul = λ x y. frac (x.num *ℤ y.num) (x.den * y.den);
  div = λ x y. div_by x.num x.den y.num y.den;
  abs = λ x. frac (pos (pos_part x.num + neg_part x.num)) x.den;
  ceil = λ x. frac (ceil_of x.num x.den) 1;
  lt = compare_by ltb_ℤ;
  le = compare_by leb_ℤ;
  to_int32 = λ x. wrap32 (quot_ℤ x.num (pos x.den));
  to_int64 = λ x. wrap64 (quot_ℤ x.num (pos x.den));
}
