-- ===== src/Resp/Total.antt =====
-- Termination of internal/core/resp.go: every array is read from a strictly shorter slice, so decoding
-- ends on every input, whatever its bytes are.
use redi_go.Prelude.{
  Bytes, List, ℕ, zero, suc, ◌+◌, ◌*◌, ◌%◌, ◌≤◌, ◌<◌, [], ◌∷◌, ◌≡◌, length, length-drop, drop,
  arith,
}
use redi_go.Prelude.Int.{ℤ, pos, negsuc, word_mod}
use redi_go.Go.Result.{Result, ok, err, panic, hang, bind_hang}
use redi_go.Go.Slice.{Slice, slice_from, slice_string}
use redi_go.Resp.Value.{Value}
use redi_go.Resp.Decode.{
  find_cr, read_simple_string, read_minus, read_plus, read_digits, read_int64, read_payload,
  read_bulk_string, read_elems, read_slots, read_array, decode_as, decode_one, decode,
}
use redi_go.Resp.Command.{tokens_of, command_of, wrap_decode, parse_cmd}

abbrev pub Ends {ℓ} : {A : Type ℓ} → Result A → Type ℓ
Ends r = ¬ (r ≡ hang)

slice_string-Ends : (d : Slice) (lo hi : ℕ) → Ends (slice_string d lo hi)
unfolding slice_string
slice_string-Ends d lo hi = ground arith

find_cr-Ends : (s : Bytes) (at : ℕ) → Ends (find_cr s at)
unfolding find_cr
find_cr-Ends [] at = cc
find_cr-Ends (c ∷ s) at = ground (arith, find_cr-Ends s (at + 1))

read_simple_string-Ends : (d : Slice) → Ends (read_simple_string d)
unfolding read_simple_string
read_simple_string-Ends d =
    bind_hang _ _ (find_cr-Ends (drop 1 d.live) 1)
      (λ at _. bind_hang _ _ (slice_string-Ends d 1 at) (λ a _. cc))

read_digits-Ends : (s : Bytes) (res at : ℕ) → Ends (read_digits s res at)
unfolding read_digits
read_digits-Ends [] res at = cc
read_digits-Ends (c ∷ s) res at =
    ground (arith, read_digits-Ends s ((res * 10 + (c + 208) % 256) % word_mod) (at + 1))

read_minus-Ends : (s : Bytes) → Ends (read_minus s)
unfolding read_minus
read_minus-Ends [] = cc
read_minus-Ends (c ∷ s) = ground arith

read_plus-Ends : (sign at : ℕ) (s : Bytes) → Ends (read_plus sign at s)
unfolding read_plus
read_plus-Ends sign at [] = cc
read_plus-Ends sign at (c ∷ s) = ground arith

read_int64-Ends : (d : Slice) → Ends (read_int64 d)
unfolding read_int64
read_int64-Ends d = bind_hang _ _ (read_minus-Ends (drop 1 d.live)) (λ p _.
    bind_hang _ _ (read_plus-Ends p.sign p.at p.rest)
      (λ q _. bind_hang _ _ (read_digits-Ends q.rest 0 q.at) (λ r _. cc)))

read_int64_at : (d : Slice) (z : ℤ) (at : ℕ) → read_int64 d ≡ ok (z, at) → 2 ≤ at
unfolding read_int64
read_int64_at d z at h = ground arith

read_payload-Ends : (d : Slice) (z : ℤ) (at : ℕ) → Ends (read_payload d z at)
unfolding read_payload
read_payload-Ends d (pos n) at = bind_hang _ _ (slice_string-Ends d at (at + n)) (λ a _. cc)
read_payload-Ends d (negsuc zero) at = cc
read_payload-Ends d (negsuc (suc n)) at = cc

read_bulk_string-Ends : (d : Slice) → Ends (read_bulk_string d)
unfolding read_bulk_string
read_bulk_string-Ends d = bind_hang _ _ (read_int64-Ends d) (λ r _. read_payload-Ends d r.0 r.1)

slice_from-Ends : (d : Slice) (at : ℕ) → Ends (slice_from d at)
unfolding slice_from
slice_from-Ends d at = ground arith

slice_from_shorter :
    (d e : Slice) (at : ℕ)
    → 0 < at
    → 0 < length d.live
    → slice_from d at ≡ ok e
    → length e.live < length d.live
unfolding slice_from
slice_from_shorter d e at h n eq = ground (arith, length-drop at d.live)

module _ (decode_elem : Slice → Result (Value × ℕ)) (d : Slice) (ne : 0 < length d.live)
    (ends : (e : Slice) → length e.live < length d.live → Ends (decode_elem e)) where
  read_elems-Ends : (n at : ℕ) → 0 < at → Ends (read_elems decode_elem n d at)
  unfolding read_elems
  read_elems-Ends zero at h = cc
  read_elems-Ends (suc n) at h = bind_hang _ _ (slice_from-Ends d at) (λ e from.
      bind_hang _ _ (ends e (slice_from_shorter d e at h ne from))
        (λ r _. bind_hang _ _ (read_elems-Ends n (at + r.1) (omega arith)) (λ m _. cc)))

  read_slots-Ends : (z : ℤ) (at : ℕ) → 0 < at → Ends (read_slots decode_elem d z at)
  unfolding read_slots
  read_slots-Ends (pos n) at h = ground (arith, read_elems-Ends n at h)
  read_slots-Ends (negsuc n) at h = cc

  read_array-Ends : Ends (read_array decode_elem d)
  unfolding read_array
  read_array-Ends =
      bind_hang _ _ (read_int64-Ends d)
        (λ r eq. read_slots-Ends r.0 r.1 (omega (arith, read_int64_at d r.0 r.1 eq)))

  decode_as-Ends : (c : ℕ) → Ends (decode_as decode_elem c d)
  unfolding decode_as
  decode_as-Ends c = ground (
    arith,
    read_simple_string-Ends d,
    read_int64-Ends d,
    read_bulk_string-Ends d,
    read_array-Ends,
  )

decode_step-Ends :
    (fuel : ℕ) (live spare : Bytes)
    → ((e : Slice) → length e.live < length live → Ends (decode_one fuel e))
    → Ends (decode_one (suc fuel) (record { live = live; spare = spare }))
unfolding decode_one
decode_step-Ends fuel [] spare ends = cc
decode_step-Ends fuel (c ∷ s) spare ends =
    decode_as-Ends (decode_one fuel) (record { live = c ∷ s; spare = spare }) (omega arith) ends c

decode_one-Ends : (fuel : ℕ) (d : Slice) → length d.live < fuel → Ends (decode_one fuel d)
decode_one-Ends zero d h = elim h [ ]
decode_one-Ends (suc fuel) d h =
    decode_step-Ends fuel d.live d.spare (λ e shorter. decode_one-Ends fuel e (omega arith))

decode-Ends : (d : Slice) → Ends (decode d)
unfolding decode
decode-Ends d = bind_hang _ _ (decode_one-Ends (suc (length d.live)) d (omega arith)) (λ r _. cc)

wrap_decode-Ends : (r : Result Value) → Ends r → Ends (wrap_decode r)
wrap_decode-Ends (ok v) h = cc
wrap_decode-Ends (err e) h = cc
wrap_decode-Ends panic h = cc
wrap_decode-Ends hang h = h

command_of-Ends : (upper : Bytes → Bytes) (ts : List Bytes) → Ends (command_of upper ts)
unfolding command_of
command_of-Ends upper [] = cc
command_of-Ends upper (t ∷ ts) = cc

parse_parts-Ends :
    (upper : Bytes → Bytes) (live spare : Bytes)
    → Ends (parse_cmd upper (record { live = live; spare = spare }))
unfolding parse_cmd
parse_parts-Ends upper [] spare = cc
parse_parts-Ends upper (c ∷ s) spare =
    bind_hang _ _ (wrap_decode-Ends _ (decode-Ends (record { live = c ∷ s; spare = spare })))
      (λ v _. command_of-Ends upper (tokens_of v))

-- Parsing a command ends on every input: the fuel that the model gives the decoder, one more than the
-- length of the input, is never used up.
pub parse_cmd-Ends : (upper : Bytes → Bytes) (d : Slice) → Ends (parse_cmd upper d)
parse_cmd-Ends upper d = parse_parts-Ends upper d.live d.spare
