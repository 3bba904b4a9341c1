-- ===== src/Core/KeyCommands.antt =====
-- `cmdPING`, `cmdSET`, `cmdGET` and `cmdTTL` of internal/core/executor.go, and `cmdINFO` and `cmdHELP`.
pub mod Replies
pub mod Valid
use redi_go.Prelude.{
  Bytes, codes, ℕ, zero, suc, ◌+◌, ◌-◌, ◌*◌, ◌/◌, ◌%◌, List, [], ◌∷◌, ◌++◌, Bool, true, false, not,
  Option, none, some, beq, leb, if◌then◌else◌,
}
use redi_go.Prelude.Int.{ℤ, pos, negsuc, word_mod, to_int64, to_word}
use redi_go.Go.Map
use redi_go.Go.Decimal.{format_nat, parse_int}
use redi_go.Resp.Value.{Value, str, int, strings}
use redi_go.Resp.Encode.{encode, resp_nil}
use redi_go.HashTable.Config.{Config}
use redi_go.HashTable.Dict.{Dict, Obj, get, get_expiry, has_expired, expiring_keys_count, ttl_avg}
use redi_go.HashTable.EvictionLru.{LruEvictionPool}
use redi_go.HashTable.Evict.{set_new}
use redi_go.Core.Reply.{resp_ok, ttl_key_not_exist, ttl_key_exist_no_expire, fail}

-- The dictionary and the package's eviction pool.
pub record Keyspace : Type 0 where
  pub dict : Dict
  pub epool : LruEvictionPool

-- What a command finds around it: the configuration, the order of `sort.Sort` among equals, the order
-- in which a range over the dictionary visits the keys, and what each reading of the clock gives, in
-- the order in which the command makes them.
pub record Env : Type 0 where
  pub config : Config
  pub sort : LruEvictionPool → LruEvictionPool
  pub order : List Bytes
  pub secs : ℕ
  pub ms0 : ℕ
  pub ms1 : ℕ
  pub ms2 : ℕ

unfoldable pub cmd_ping : List Bytes → Bytes
cmd_ping [] = encode (str (codes "PONG")) true
cmd_ping (a ∷ []) = encode (str a) false
cmd_ping (a ∷ b ∷ args) = fail (codes "ERR wrong number of arguments for 'ping' command")

-- dictStore.Set(key, dictStore.NewObj(key, value, ttlMs))
unfoldable pub store_value : Env → Keyspace → Bytes → Bytes → ℤ → Keyspace × Bytes
store_value env s key value ttl_ms =
    let (d, p) =
      set_new env.sort env.config env.order s.dict s.epool key (str value) ttl_ms env.secs
        env.ms0 in
    (record { dict = d; epool = p }, resp_ok)

-- ttlSec * 1000, in an `int64`
abbrev pub times_1000 : ℤ → ℤ
times_1000 ttl_sec = to_int64 ((to_word ttl_sec * 1000) % word_mod)

-- ttlSec, err := strconv.ParseInt(args[3], 10, 64)
unfoldable pub store_ttl : Env → Keyspace → Bytes → Bytes → Option ℤ → Keyspace × Bytes
unfolding store_value
store_ttl env s key value none =
    (s, fail (codes "(error) ERR value is not an integer or out of range"))
store_ttl env s key value (some ttl_sec) = store_value env s key value (times_1000 ttl_sec)

abbrev pub set_arity : Bytes
set_arity = fail (codes "(error) ERR wrong number of arguments for 'SET' command")

unfoldable pub cmd_set : Env → Keyspace → List Bytes → Keyspace × Bytes
unfolding store_value store_ttl
cmd_set env s (key ∷ value ∷ []) = store_value env s key value (negsuc 0)
cmd_set env s (key ∷ value ∷ option ∷ ttl ∷ []) =
    if not (beq option (codes "EX"))
    then (s, fail (codes "(error) ERR syntax error. Must be EX instead of " ++ option))
    else store_ttl env s key value (parse_int ttl)
cmd_set env s args = (s, set_arity)

-- The second test of the expiry, on what `Get` returned.
unfoldable pub get_reply : Dict → Bytes → ℕ → Option Obj → Bytes
get_reply d key ms none = resp_nil
get_reply d key ms (some obj) = if has_expired d key ms then resp_nil else encode obj.value false

unfoldable pub cmd_get : Env → Keyspace → List Bytes → Keyspace × Bytes
unfolding get_reply
cmd_get env s (key ∷ []) =
    let (d, obj) = get s.dict key env.secs env.ms0 in
    (record s { dict = d }, get_reply d key env.ms1 obj)
cmd_get env s args = (s, fail (codes "(error) ERR wrong number of arguments for 'GET' command"))

-- remainMs := exp - uint64(time.Now().UnixMilli()), in a word, and one more reading of the clock
unfoldable pub ttl_left : Env → Option ℕ → Bytes
ttl_left env none = ttl_key_exist_no_expire
ttl_left env (some exp) =
    let remain_ms = (exp + word_mod - env.ms1) % word_mod in
    if leb exp env.ms2 then ttl_key_not_exist else encode (int (to_int64 (remain_ms / 1000))) false

unfoldable pub ttl_reply : Env → Dict → Bytes → Option Obj → Bytes
unfolding ttl_left
ttl_reply env d key none = ttl_key_not_exist
ttl_reply env d key (some obj) = ttl_left env (get_expiry d key)

unfoldable pub cmd_ttl : Env → Keyspace → List Bytes → Keyspace × Bytes
unfolding ttl_reply
cmd_ttl env s (key ∷ []) =
    let (d, obj) = get s.dict key env.secs env.ms0 in
    (record s { dict = d }, ttl_reply env d key obj)
cmd_ttl env s args = (s, fail (codes "(error) ERR wrong number of arguments for 'TTL' command"))

-- The text of `INFO keyspace`.
keyspace_text : Env → Dict → Bytes
keyspace_text env d =
    codes "# Keyspace\r\ndb0:keys="
    ++ (format_nat (Map.size d.dict_store)
        ++ (codes ",expires="
            ++ (format_nat (expiring_keys_count d env.ms0)
                ++ (codes ",avg_ttl=" ++ (format_nat (ttl_avg d env.ms1) ++ codes "\r\n")))))

unfoldable pub cmd_info : Env → Keyspace → List Bytes → Bytes
unfolding keyspace_text
cmd_info env s [] =
    encode
      (str (codes "All sections. I will implement later. You can try `INFO keyspace` command\n"))
      false
cmd_info env s (section ∷ []) =
    if beq section (codes "keyspace")
    then encode (str (keyspace_text env s.dict)) false
    else fail (codes "(error) ERR unknown INFO section")
cmd_info env s (a ∷ b ∷ args) =
    fail (codes "(error) ERR wrong number of arguments for 'INFO' command")

help_commands : List Bytes
help_commands =
    codes "--------------------------------"
    ∷ codes "PING [message] - Ping the server"
    ∷ codes "GET key - Get the value of a key"
    ∷ codes "SET key value - Set the value of a key"
    ∷ codes "EXISTS key - Check if a key exists"
    ∷ codes "TTL key - Get the time to live for a key"
    ∷ codes "SADD key member [member ...] - Add members to a set"
    ∷ codes "SREM key member [member ...] - Remove members from a set"
    ∷ codes "HELP - Show this help message"
    ∷ codes "CLEAR - Clear the terminal screen"
    ∷ codes "--------------------------------"
    ∷ []

unfoldable pub cmd_help : Bytes
unfolding help_commands
cmd_help = encode (strings help_commands) false
