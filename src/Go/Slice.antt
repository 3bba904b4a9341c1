-- ===== src/Go/Slice.antt =====
-- A `[]byte`: the bytes up to its length, and those between its length and its capacity, which a
-- slice expression may reach. Reading never writes, so slices are values.
use redi_go.Prelude.{
  Bytes, ℕ, ◌+◌, ◌-◌, ◌++◌, length, replicate, take, drop, [], leb, if◌then◌else◌,
}
use redi_go.Go.Result.{Result, ok, panic}

pub record Slice : Type 0 where
  pub live : Bytes
  pub spare : Bytes

-- buf[:n] after one read, of the bytes `s` or of as many as fit, into a new buffer of `size` bytes.
abbrev pub read_into : ℕ → Bytes → Slice
read_into size s = record { live = take size s; spare = replicate (size - length s) 0 }

-- The whole buffer after such a read.
abbrev pub whole_buffer : ℕ → Bytes → Slice
whole_buffer size s = record { live = take size s ++ replicate (size - length s) 0; spare = [] }

-- data[pos:]
unfoldable pub slice_from : Slice → ℕ → Result Slice
slice_from data' pos =
    if leb pos (length data'.live) then ok (record data' { live = drop pos data'.live }) else panic

-- string(data[lo:hi]): `hi` may go up to the capacity
unfoldable pub slice_string : Slice → ℕ → ℕ → Result Bytes
slice_string data' lo hi =
    if leb lo hi
    then (if leb hi (length data'.live + length data'.spare)
        then ok (take (hi - lo) (drop lo (data'.live ++ data'.spare)))
        else panic)
    else panic
