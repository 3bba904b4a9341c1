-- ===== src/Tests/Servers.antt =====
-- A server of two workers.
use redi_go.Prelude.{
  Bytes, codes, ℕ, zero, suc, ◌≡◌, ◌<◌, [], refl, false, arith, some, beq, if◌then◌else◌,
}
use redi_go.Prelude.Int.{pos}
use redi_go.Go.Map
use redi_go.Go.Result.{ok}
use redi_go.Go.Decimal.{parse_int, parse_uint, digits_value}
use redi_go.Resp.Value.{str}
use redi_go.Resp.Command.{Command}
use redi_go.HashTable.Config.{ge_int}
use redi_go.HashTable.Dict.{create_dict}
use redi_go.HashTable.Expiry.{lifetime}
use redi_go.Core.Reply.{resp_ok}
use redi_go.Core.KeyCommands.{Env, times_1000}
use redi_go.Core.KeyCommands.Replies.{value_reply}
use redi_go.Server.{Server, new_server, get_partition_id, fnv32a, fnv_write, modulo, dispatch}
use redi_go.Server.Shards.{IsServer, shard, seen, new_server-IsServer, dispatch-IsServer}
use redi_go.Server.OneMap.{set_task, get_task, dispatch-set, dispatch-get}

abbrev pub env : Env
env = record {
  config = record {
    max_key_number = pos 10;
    evict_count = pos 1;
    eviction_policy = codes "allkeys-lru";
    epool_max_size = pos 16;
    epool_sample_size = pos 5;
  };
  sort = λ p. p;
  order = [];
  secs = 1;
  ms0 = 1000;
  ms1 = 1001;
  ms2 = 1002;
}

abbrev pub a : Bytes
a = codes "a"

abbrev pub b : Bytes
b = codes "b"

abbrev pub pred : ℕ → ℕ
pred zero = zero
pred (suc n) = n

pred_lt : (n : ℕ) → 0 < n → pred n < n
pred_lt zero lt = elim lt [ ]
pred_lt (suc n) lt = omega arith

abbrev pub two : Server
two = new_server 4

pub two-IsServer : IsServer two
two-IsServer = new_server-IsServer 4 (omega arith)

-- The two keys are on different workers.
partitions : (get_partition_id two a ≡ ok 0) × (get_partition_id two b ≡ ok 1)
unfolding get_partition_id fnv32a fnv_write modulo new_server
partitions = (refl, refl)

ping : Command
ping = record { cmd = codes "PING"; args = [] }

dispatch-IsServer_example :
    (s' : Server) × (res : Bytes) × (dispatch env pred two ping ≡ ok (s', res)) × IsServer s'
dispatch-IsServer_example = dispatch-IsServer env pred two ping pred_lt two-IsServer

pub parsed : parse_int (codes "1") ≡ some (pos 1)
unfolding parse_int parse_uint digits_value
parsed = refl

pub room : ge_int (Map.size (shard two a).dict_store) (pos 10) ≡ false
unfolding shard new_server create_dict Map.size Map.empty
room = ground arith

dispatch-set_example :
    (s' : Server) × (dispatch env pred two (set_task a b (codes "1")) ≡ ok (s', resp_ok))
    × IsServer s'
    × (seen s' b 5000 ≡ (
        if beq a b
        then lifetime 1000 (times_1000 (pos 1)) 5000 (some (str b))
        else seen two b 5000))
dispatch-set_example =
    dispatch-set env pred two a b (codes "1") (pos 1) b 5000 two-IsServer parsed room (omega arith)

dispatch-get_example :
    (s' : Server) × (dispatch env pred two (get_task a) ≡ ok (s', value_reply (seen two a 1001)))
    × IsServer s'
    × (seen s' b 5000 ≡ seen two b 5000)
dispatch-get_example = dispatch-get env pred two a b 5000 two-IsServer (omega arith) (omega arith)
