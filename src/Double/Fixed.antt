-- ===== src/Double/Fixed.antt =====
-- Thousandths, as an integer: an instance of the operations in which the laws hold.
use Prim.Native.Nat.{min}
use boo.Base.{◌*◌, ◌/◌, ◌^◌, ◌-◌, if◌then◌else◌, arith}
use boo.Base.Int.{ℤ, pos, pos_part, ◌+ℤ◌, ◌-ℤ◌, ◌*ℤ◌, ◌/ℤ◌, neg_ℤ, ltb_ℤ, leb_ℤ}
use boo.Double.{Double, IsOrdered}

instance abbrev pub thousandths : Double ℤ
thousandths = record {
  add = ◌+ℤ◌;
  sub = ◌-ℤ◌;
  mul = λ x y. x *ℤ y /ℤ pos 1000;
  div = λ x y. x *ℤ pos 1000 /ℤ y;
  abs = λ x. if ltb_ℤ x (pos 0) then neg_ℤ x else x;
  minimum = λ x y. if ltb_ℤ y x then y else x;
  maximum = λ x y. if ltb_ℤ x y then y else x;
  lt = ltb_ℤ;
  le = leb_ℤ;
  of_i32 = λ n. n *ℤ pos 1000;
  of_usize = λ n. pos (n * 1000);
  to_u32 = λ x. min (pos_part x / 1000) (2 ^ 32 - 1);
  nought = pos 0;
  one = pos 1000;
  two = pos 2000;
  three = pos 3000;
  tenth = pos 100;
  half = pos 500;
  three_fifths = pos 600;
  nine_tenths = pos 900;
  epsilon = pos 1;
}

pub thousandths-IsOrdered : IsOrdered ℤ
thousandths-IsOrdered = ground arith
