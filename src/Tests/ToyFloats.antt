-- ===== src/Tests/ToyFloats.antt =====
-- Toy numbers in place of the floating point ones.
use redi_go.Prelude.{ℕ, ◌*◌, [], some, length, ltb, leb, ◌==◌}
use redi_go.Prelude.Int.{pos}
use redi_go.Go.Float.{Floats}

abbrev pub toy : Floats
toy = record {
  Float = ℕ;
  zero = 0;
  one = 1;
  euler = 3;
  literal = λ s. 1;
  neg = λ x. x;
  abs = λ x. x;
  mul = λ x y. x * y;
  lt = ltb;
  le = leb;
  eq = λ x y. x == y;
  div = λ x y. x;
  ceil = λ x. x;
  log = λ x. x;
  to_uint64 = λ x. x;
  to_int = pos;
  of_uint64 = λ n. n;
  parse_float = λ s. some (length s);
  sprint_f = λ x. [];
}
