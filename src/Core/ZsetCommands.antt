-- ===== src/Core/ZsetCommands.antt =====
-- internal/core/commands_sorted_set.go, over the map `zsetStore`. A sorted set is changed through the
-- pointer that the map holds, so the changed set is written back under its key.
use redi_go.Prelude.{
  Bytes, codes, ℕ, ◌+◌, ◌%◌, List, [], ◌∷◌, ◌++◌, false, not, Option, none, some, ◌==◌,
  if◌then◌else◌, length,
}
use redi_go.Go.Map
use redi_go.Go.Map.{Map}
use redi_go.Go.Float.{Floats}
use redi_go.Go.Result.{Result, ok, ◌>>=◌}
use redi_go.Go.Decimal.{format_nat}
use redi_go.Resp.Value.{str, int}
use redi_go.Resp.Encode.{encode, resp_nil}
use redi_go.SortedSet
use redi_go.SortedSet.{SortedSet}
use redi_go.SortedSet.Interface.{OrderedIndex}
use redi_go.Core.Reply.{fail, int_reply}

module _ (F : Floats) (I : OrderedIndex F) where
  open F use {Float}

  abbrev pub Zsets : Type 0
  Zsets = Map (SortedSet F I)

  unfoldable pub zset_at : Zsets → Bytes → SortedSet F I
  zset_at store key = elim (Map.get store key) [
    | none ↦ SortedSet.new_sorted_set F I
    | some zset ↦ zset
  ]

  -- The loop over the pairs: the members before a bad pair stay added, and a pair whose member is
  -- known is a bad one.
  unfoldable pub add_pairs : List Bytes → SortedSet F I → ℕ → Result (SortedSet F I × Bytes)
  add_pairs (score ∷ member ∷ args) zset count = elim (F.parse_float score) [
    | none ↦ ok (zset, fail (codes "(error) Score must be floating point number"))
    | some x ↦ do
      r ← SortedSet.add F I zset x member
      let rest = add_pairs args r.0 (count + 1) in
          if not (r.1 == 1) then ok (r.0, fail (codes "error when adding element")) else rest
  ]
  add_pairs args zset count = ok (zset, int_reply count)

  unfoldable pub cmd_zadd : Zsets → List Bytes → Result (Zsets × Bytes)
  unfolding add_pairs zset_at
  cmd_zadd store (key ∷ score ∷ member ∷ args) =
      let n = length args + 2 in
      let added = add_pairs (score ∷ member ∷ args) (zset_at store key) 0 >>= λ r.
      ok (Map.put store key r.0, r.1) in
      if n % 2 == 1
      then ok (store, fail (codes "(error) Wrong number of (score, member) arg: " ++ format_nat n))
      else added
  cmd_zadd store args =
      ok (store, fail (codes "(error) ERR wrong number of arguments for 'ZADD' command"))

  score_text : Option Float → Bytes
  score_text none = resp_nil
  score_text (some x) = encode (str (F.sprint_f x)) false

  score_reply : Bytes → Option (SortedSet F I) → Bytes
  unfolding score_text
  score_reply member none = resp_nil
  score_reply member (some zset) = score_text (SortedSet.get_score F I zset member)

  unfoldable pub cmd_zscore : Zsets → List Bytes → Bytes
  unfolding score_reply
  cmd_zscore store (key ∷ member ∷ []) = score_reply member (Map.get store key)
  cmd_zscore store args = fail (codes "(error) ERR wrong number of arguments for 'ZSCORE' command")

  rank_reply : Bytes → Option (SortedSet F I) → Result Bytes
  rank_reply member none = ok resp_nil
  rank_reply member (some zset) = do
    rank ← SortedSet.get_rank F I zset member
    ok (encode (int rank) false)

  unfoldable pub cmd_zrank : Zsets → List Bytes → Result Bytes
  unfolding rank_reply
  cmd_zrank store (key ∷ member ∷ []) = rank_reply member (Map.get store key)
  cmd_zrank store args =
      ok (fail (codes "(error) ERR wrong number of arguments for 'ZRANK' command"))
