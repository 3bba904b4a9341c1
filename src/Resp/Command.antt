-- ===== src/Resp/Command.antt =====
-- `Command` and `ParseCmd`.
use redi_go.Prelude.{Bytes, codes, List, [], ◌∷◌, ◌++◌, ◌≡◌, refl, map}
use redi_go.Go.Result.{Result, ok, err, panic, hang, ◌>>=◌}
use redi_go.Go.Slice.{Slice}
use redi_go.Go.Decimal.{digits, format_nat, format_int}
use redi_go.Go.Text.{fields, to_upper}
use redi_go.Resp.Value.{
  Value, Items, null, str, int, error, strings, string_lists, array, end, item,
}
use redi_go.Resp.Decode.{decode}

pub record Command : Type 0 where
  pub cmd : Bytes
  pub args : List Bytes

-- `fmt.Sprint` writes a slice as its elements between brackets, a space between two.
spaced : List Bytes → Bytes
spaced [] = []
spaced (s ∷ []) = s
spaced (s ∷ t ∷ ss) = s ++ b' ' ∷ spaced (t ∷ ss)

abbrev bracketed : List Bytes → Bytes
unfolding spaced
bracketed ss = b'[' ∷ (spaced ss ++ b']' ∷ [])

unfoldable mutual
  unfolding spaced format_int

  -- fmt.Sprint(v)
  pub sprint : Value → Bytes
  sprint null = codes "<nil>"
  sprint (str s) = s
  sprint (int z) = format_int z
  sprint (error message) = message
  sprint (strings ss) = bracketed ss
  sprint (string_lists sss) = bracketed (map (λ ss. bracketed ss) sss)
  sprint (array vs) = bracketed (sprint_items vs)

  pub sprint_items : Items → List Bytes
  sprint_items end = []
  sprint_items (item v vs) = sprint v ∷ sprint_items vs

-- The switch on the decoded value. `string` and `int64` elements are printed as `Sprint` prints them.
unfoldable pub tokens_of : Value → List Bytes
unfolding sprint_items fields
tokens_of null = []
tokens_of (array vs) = sprint_items vs
tokens_of (str s) = fields s
tokens_of (int z) = sprint (int z) ∷ []
tokens_of (error message) = sprint (error message) ∷ []
tokens_of (strings ss) = sprint (strings ss) ∷ []
tokens_of (string_lists sss) = sprint (string_lists sss) ∷ []

-- The error of `Decode` is wrapped in a new one.
abbrev pub wrap_decode : Result Value → Result Value
wrap_decode (ok v) = ok v
wrap_decode (err e) = err (codes "failed to decode RESP: " ++ e)
wrap_decode panic = panic
wrap_decode hang = hang

module _ (upper_unicode : Bytes → Bytes) where
  unfoldable pub command_of : List Bytes → Result Command
  unfolding to_upper
  command_of [] = err (codes "no command found")
  command_of (t ∷ ts) = ok (record { cmd = to_upper upper_unicode t; args = ts })

  unfoldable pub parse_cmd : Slice → Result Command
  parse_cmd d = elim d.live [
    | [] ↦ err (codes "empty data")
    | c ∷ s ↦ do v ← wrap_decode (decode d); command_of (tokens_of v)
  ]

parse_cmd_test :
    parse_cmd (λ s. s) (record { live = codes "*2\r\n$3\r\nget\r\n:7\r\n"; spare = [] })
    ≡ ok (record { cmd = codes "GET"; args = codes "7" ∷ [] })
unfolding parse_cmd decode tokens_of command_of format_nat digits
parse_cmd_test = refl
