-- ===== src/Core/CmsCommands.antt =====
-- internal/core/command_cms.go, over the map `cmsStore`. A sketch is changed through the pointer that
-- the map holds, so the changed sketch is written back under its key.
use redi_go.Prelude.{
  Bytes, codes, ℕ, ◌%◌, List, [], ◌∷◌, ◌++◌, Bool, false, ◌||◌, Option, none, some, ◌+◌, ◌==◌,
  if◌then◌else◌, length,
}
use redi_go.Prelude.Int.{ℤ, to_word}
use redi_go.Go.Map
use redi_go.Go.Map.{Map}
use redi_go.Go.Float.{Floats}
use redi_go.Go.Result.{Result, ok, ◌>>=◌}
use redi_go.Go.Decimal.{format_nat, parse_int, parse_uint}
use redi_go.Resp.Value.{strings}
use redi_go.Resp.Encode.{encode}
use redi_go.Probabilistic.Cms
use redi_go.Probabilistic.Cms.{Cms, max_uint64}
use redi_go.Core.Reply.{resp_ok, fail}

abbrev pub Store : Type 0
Store = Map Cms

-- cmsStore[key] = probabilistic.NewCMS(w, h), unless the key exists
unfoldable pub create : Store → Bytes → ℕ → ℕ → Option Cms → Result (Store × Bytes)
create store key w h (some c) = ok (store, fail (codes "CMS: key already exists"))
create store key w h none = do c ← Cms.new_cms w h; ok (Map.put store key c, resp_ok)

abbrev not_an_integer : Bytes → Bytes → Bytes
not_an_integer what arg = fail (what ++ (codes " must be a integer number " ++ arg))

-- The parsed width and height. The error of the height quotes the width, `args[1]`.
unfoldable pub init_by_dim : Store → Bytes → Bytes → Option ℤ → Option ℤ → Result (Store × Bytes)
unfolding create
init_by_dim store key arg none h = ok (store, not_an_integer (codes "width") arg)
init_by_dim store key arg (some w) none = ok (store, not_an_integer (codes "height") arg)
init_by_dim store key arg (some w) (some h) =
    create store key (to_word w) (to_word h) (Map.get store key)

unfoldable pub cmd_cms_init_by_dim : Store → List Bytes → Result (Store × Bytes)
unfolding init_by_dim
cmd_cms_init_by_dim store (key ∷ width ∷ height ∷ []) =
    init_by_dim store key width (parse_int width) (parse_int height)
cmd_cms_init_by_dim store args =
    ok (store, fail (codes "(error) ERR wrong number of arguments for 'CMS.INITBYDIM' command"))

module _ (F : Floats) where
  open F use {Float}

  -- x >= 1 || x <= 0; of a number that is none of these two orders are false
  outside : Float → Bool
  outside x = (F.lt F.one x || F.eq F.one x) || (F.lt x F.zero || F.eq x F.zero)

  -- CalcCMSDim of internal/data_structure/probabilistic/cms.go
  unfoldable pub calc_cms_dim : Float → Float → ℕ × ℕ
  calc_cms_dim err_rate prob_rate = (
    F.to_uint64 (F.ceil (F.div F.euler err_rate)),
    F.to_uint64 (F.ceil (F.log (F.div F.one prob_rate))),
  )

  init_probability : Store → Bytes → Float → Bytes → Option Float → Result (Store × Bytes)
  unfolding outside create
  init_probability store key err_rate arg none =
      ok (store, fail (codes "probability must be a floating poit number " ++ arg))
  init_probability store key err_rate arg (some probability) =
      if outside probability
      then ok (store, fail (codes "CMS: invalid prob value"))
      else (let (w, h) = calc_cms_dim err_rate probability in
          create store key w h (Map.get store key))

  init_err_rate :
      Store → Bytes → Bytes → Option Float → Bytes → Option Float → Result (Store × Bytes)
  unfolding init_probability outside
  init_err_rate store key arg none arg' p =
      ok (store, fail (codes "errRate must be a floating point number " ++ arg))
  init_err_rate store key arg (some err_rate) arg' p =
      if outside err_rate
      then ok (store, fail (codes "CMS: invalid overestimation value"))
      else init_probability store key err_rate arg' p

  unfoldable pub cmd_cms_init_by_prob : Store → List Bytes → Result (Store × Bytes)
  unfolding init_err_rate
  cmd_cms_init_by_prob store (key ∷ err_rate ∷ probability ∷ []) =
      init_err_rate store key err_rate (F.parse_float err_rate) probability
        (F.parse_float probability)
  cmd_cms_init_by_prob store args =
      ok (store, fail (codes "(error) ERR wrong number of arguments for 'CMS.INITBYPROB' command"))

module _ (hash : Bytes → ℕ → ℕ) where
  -- What one increment adds to the reply.
  abbrev pub incr_text : ℕ → Bytes
  incr_text count = if count == max_uint64 then codes "CMS: INCRBY overflow" else format_nat count

  -- The loop over the pairs. The increments before a bad one stay done, and its error quotes the
  -- first item, `args[1]`.
  unfoldable pub incr_pairs : Bytes → List Bytes → Cms → List Bytes → Result (Cms × Bytes)
  incr_pairs first (item ∷ value ∷ args) c res = elim (parse_uint value) [
    | none ↦ ok (c, fail (codes "increment must be a non negative integer number " ++ first))
    | some v ↦ do
      r ← Cms.incr_by hash c item v
      incr_pairs first args r.0 (res ++ incr_text r.1 ∷ [])
  ]
  incr_pairs first args c res = ok (c, encode (strings res) false)

  incr_found : Store → Bytes → Bytes → List Bytes → Option Cms → Result (Store × Bytes)
  unfolding incr_pairs
  incr_found store key first args none = ok (store, fail (codes "CMS: key does not exist"))
  incr_found store key first args (some c) = do
    r ← incr_pairs first args c []
    ok (Map.put store key r.0, r.1)

  unfoldable pub cmd_cms_incrby : Store → List Bytes → Result (Store × Bytes)
  unfolding incr_found
  cmd_cms_incrby store (key ∷ item ∷ value ∷ args) =
      if (length args + 3) % 2 == 0
      then ok (store, fail (codes "(error) ERR wrong number of arguments for 'CMS.INCBY' command"))
      else incr_found store key item (item ∷ value ∷ args) (Map.get store key)
  cmd_cms_incrby store args =
      ok (store, fail (codes "(error) ERR wrong number of arguments for 'CMS.INCBY' command"))

  unfoldable pub query_items : List Bytes → Cms → List Bytes → Result Bytes
  query_items [] c res = ok (encode (strings res) false)
  query_items (item ∷ items) c res = do
    n ← Cms.count hash c item
    query_items items c (res ++ format_nat n ∷ [])

  query_found : List Bytes → Option Cms → Result Bytes
  unfolding query_items
  query_found items none = ok (fail (codes "CMS: key does not exist"))
  query_found items (some c) = query_items items c []

  unfoldable pub cmd_cms_query : Store → List Bytes → Result Bytes
  unfolding query_found
  cmd_cms_query store (key ∷ item ∷ items) = query_found (item ∷ items) (Map.get store key)
  cmd_cms_query store args =
      ok (fail (codes "(error) ERR wrong number of arguments for 'CMS.QUERY' command"))
