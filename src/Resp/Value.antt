-- ===== src/Resp/Value.antt =====
-- The dynamic values that `Encode` and `DecodeOne` pass as `interface{}`.
use redi_go.Prelude.{Bytes, List, ℕ, suc}
use redi_go.Prelude.Int.{ℤ}

mutual
  pub data Value : Type 0 where
    null : Value
    str : Bytes → Value
    int : ℤ → Value
    error : Bytes → Value
    -- []string and [][]string
    strings : List Bytes → Value
    string_lists : List (List Bytes) → Value
    -- []interface{}
    array : Items → Value

  pub data Items : Type 0 where
    end : Items
    item : Value → Items → Items

abbrev pub count : Items → ℕ
count end = 0
count (item v vs) = suc (count vs)

abbrev pub str_items : List Bytes → Items
str_items List.[] = end
str_items (List.◌∷◌ s ss) = item (str s) (str_items ss)
