-- ===== src/Core/Executor.antt =====
-- `ExecuteAndResponse` of internal/core/executor.go, over the stores of internal/core/storage.go. The
-- write to the connection is left out: the reply is the result.
pub mod Stored
use redi_go.Prelude.{Bytes, codes, ℕ, List, beq, if◌then◌else◌}
use redi_go.Go.Map
use redi_go.Go.Map.{Map}
use redi_go.Go.Float.{Floats}
use redi_go.Go.Result.{Result, ok, ◌>>=◌}
use redi_go.Resp.Command.{Command}
use redi_go.SimpleSet.{SimpleSet}
use redi_go.Probabilistic.Cms.{Cms}
use redi_go.HashTable.Dict.{create_dict}
use redi_go.HashTable.EvictionLru.{new_epool}
use redi_go.SortedSet.{SortedSet}
use redi_go.SortedSet.Interface.{OrderedIndex}
use redi_go.Core.KeyCommands.{
  Keyspace, Env, cmd_ping, cmd_set, cmd_get, cmd_ttl, cmd_info, cmd_help,
}
use redi_go.Core.SetCommands.{cmd_sadd, cmd_srem, cmd_smembers, cmd_sismember}
use redi_go.Core.CmsCommands.{
  cmd_cms_init_by_dim, cmd_cms_init_by_prob, cmd_cms_incrby, cmd_cms_query,
}
use redi_go.Core.ZsetCommands.{cmd_zadd, cmd_zscore, cmd_zrank}

abbrev pub cmd_not_found : Bytes
cmd_not_found = codes "-CMD NOT FOUND\r\n"

module _ (F : Floats) (I : OrderedIndex F) (hash : Bytes → ℕ → ℕ)
    (visit : List Bytes → List Bytes) where
  pub record Storage : Type 0 where
    pub keyspace : Keyspace
    pub zset_store : Map (SortedSet F I)
    pub set_store : Map SimpleSet
    pub cms_store : Map Cms

  -- init()
  unfoldable pub init : Storage
  init = record {
    keyspace = record { dict = create_dict; epool = new_epool };
    zset_store = Map.empty;
    set_store = Map.empty;
    cms_store = Map.empty;
  }

  abbrev with_keyspace : Storage → Keyspace × Bytes → Result (Storage × Bytes)
  with_keyspace s r = ok (record s { keyspace = r.0 }, r.1)

  abbrev with_zsets : Storage → Map (SortedSet F I) × Bytes → Result (Storage × Bytes)
  with_zsets s r = ok (record s { zset_store = r.0 }, r.1)

  abbrev with_sets : Storage → Map SimpleSet × Bytes → Result (Storage × Bytes)
  with_sets s r = ok (record s { set_store = r.0 }, r.1)

  abbrev with_cms : Storage → Map Cms × Bytes → Result (Storage × Bytes)
  with_cms s r = ok (record s { cms_store = r.0 }, r.1)

  abbrev only_reply : Storage → Bytes → Result (Storage × Bytes)
  only_reply s reply = ok (s, reply)

  cms_command : Storage → Command → Result (Storage × Bytes)
  cms_command s c =
      if beq c.cmd (codes "CMS.INITBYDIM")
      then cmd_cms_init_by_dim s.cms_store c.args >>= with_cms s
      else if beq c.cmd (codes "CMS.INITBYPROB")
      then cmd_cms_init_by_prob F s.cms_store c.args >>= with_cms s
      else if beq c.cmd (codes "CMS.INCRBY")
      then cmd_cms_incrby hash s.cms_store c.args >>= with_cms s
      else if beq c.cmd (codes "CMS.QUERY")
      then cmd_cms_query hash s.cms_store c.args >>= only_reply s
      else only_reply s cmd_not_found

  unfoldable pub other_command : Env → Storage → Command → Result (Storage × Bytes)
  unfolding cms_command
  other_command env s c =
      if beq c.cmd (codes "SADD")
      then with_sets s (cmd_sadd s.set_store c.args)
      else if beq c.cmd (codes "SREM")
      then with_sets s (cmd_srem s.set_store c.args)
      else if beq c.cmd (codes "SMEMBERS")
      then only_reply s (cmd_smembers visit s.set_store c.args)
      else if beq c.cmd (codes "SISMEMBER")
      then only_reply s (cmd_sismember s.set_store c.args)
      else if beq c.cmd (codes "INFO")
      then only_reply s (cmd_info env s.keyspace c.args)
      else if beq c.cmd (codes "HELP")
      then only_reply s cmd_help
      else cms_command s c

  unfoldable pub execute : Env → Storage → Command → Result (Storage × Bytes)
  unfolding other_command
  execute env s c =
      if beq c.cmd (codes "PING")
      then only_reply s (cmd_ping c.args)
      else if beq c.cmd (codes "SET")
      then with_keyspace s (cmd_set env s.keyspace c.args)
      else if beq c.cmd (codes "GET")
      then with_keyspace s (cmd_get env s.keyspace c.args)
      else if beq c.cmd (codes "TTL")
      then with_keyspace s (cmd_ttl env s.keyspace c.args)
      else if beq c.cmd (codes "ZADD")
      then cmd_zadd F I s.zset_store c.args >>= with_zsets s
      else if beq c.cmd (codes "ZSCORE")
      then only_reply s (cmd_zscore F I s.zset_store c.args)
      else if beq c.cmd (codes "ZRANK")
      then cmd_zrank F I s.zset_store c.args >>= only_reply s
      else other_command env s c
