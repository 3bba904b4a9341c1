-- ===== src/Go/Float.antt =====
-- `float64`. The model has no floats: the type and the operations that the program uses are a
-- parameter, a value of this record.
use redi_go.Prelude.{Bytes, ℕ, Bool, Option}
use redi_go.Prelude.Int.{ℤ}

pub record Floats : Type 1 where
  pub Float : Type 0
  pub zero : Float
  pub one : Float
  -- math.E
  pub euler : Float
  -- a constant, by its digits in the source
  pub literal : Bytes → Float
  pub neg : Float → Float
  pub abs : Float → Float
  pub mul : Float → Float → Float
  pub lt : Float → Float → Bool
  -- `<=`, which is not the negation of `>` at NaN
  pub le : Float → Float → Bool
  -- `==`
  pub eq : Float → Float → Bool
  pub div : Float → Float → Float
  -- math.Ceil and math.Log
  pub ceil : Float → Float
  pub log : Float → Float
  -- uint64(x)
  pub to_uint64 : Float → ℕ
  -- int(x)
  pub to_int : Float → ℤ
  -- float64(n) of a `uint64`
  pub of_uint64 : ℕ → Float
  -- strconv.ParseFloat(s, 64)
  pub parse_float : Bytes → Option Float
  -- fmt.Sprintf("%f", x)
  pub sprint_f : Float → Bytes
