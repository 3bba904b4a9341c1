-- ===== src/Resp/RoundTrip/Commands.antt =====
-- `ParseCmd` on a request that a client encodes as an array of strings.
use redi_go.Prelude.{
  Bytes, ℕ, suc, ◌≤◌, List, [], ◌∷◌, ◌++◌, ◌≡◌, refl, ap, ◌∙◌, false, length, All,
}
use redi_go.Prelude.Int.{int_max}
use redi_go.Go.Result.{ok}
use redi_go.Go.Text.{to_upper}
use redi_go.Resp.Value.{Value, array, str_items, count}
use redi_go.Resp.Decode.{max_slots, decode}
use redi_go.Resp.Encode.{encode}
use redi_go.Resp.Command.{sprint, sprint_items, tokens_of, command_of, parse_cmd}
use redi_go.Resp.RoundTrip.Values.{AllWire, decode-encode}

count-str_items : (ts : List Bytes) → count (str_items ts) ≡ length ts
count-str_items [] = refl
count-str_items (t ∷ ts) = ap suc (count-str_items ts)

str_items-AllWire : (ts : List Bytes) → All (λ t. length t ≤ int_max) ts → AllWire (str_items ts)
str_items-AllWire [] h = tt
str_items-AllWire (t ∷ ts) h = (h.0, str_items-AllWire ts h.1)

sprint_items-str_items : (ts : List Bytes) → sprint_items (str_items ts) ≡ ts
unfolding sprint
sprint_items-str_items [] = refl
sprint_items-str_items (t ∷ ts) = ap (◌∷◌ t) (sprint_items-str_items ts)

parse_decoded :
    (upper : Bytes → Bytes) (c : ℕ) (s spare : Bytes) (v : Value)
    → decode (record { live = c ∷ s; spare = spare }) ≡ ok v
    → parse_cmd upper (record { live = c ∷ s; spare = spare }) ≡ command_of upper (tokens_of v)
unfolding parse_cmd
parse_decoded upper c s spare v h = rw h

-- The tokens of a request arrive unchanged, the first in upper case: any bytes in the arguments,
-- line ends included, any bytes behind the request, and any contents of the rest of the buffer. There are at most
-- `max_slots` tokens, each of a length that an `int` holds.
pub parse_cmd-encode :
    (upper : Bytes → Bytes) (t : Bytes) (ts : List Bytes) (rest spare : Bytes)
    → length (t ∷ ts) ≤ max_slots
    → All (λ s. length s ≤ int_max) (t ∷ ts)
    → parse_cmd upper
        (record { live = encode (array (str_items (t ∷ ts))) false ++ rest; spare = spare })
      ≡ ok (record { cmd = to_upper upper t; args = ts })
unfolding encode
parse_cmd-encode upper t ts rest spare fits short =
    parse_decoded upper _ _ spare _ (
      decode-encode (array (str_items (t ∷ ts))) rest spare
        (rw (count-str_items (t ∷ ts)) fits, str_items-AllWire (t ∷ ts) short))
    ∙ unfold tokens_of command_of in rw (sprint_items-str_items ts)
