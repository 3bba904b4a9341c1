-- ===== src/Core/SetCommands.antt =====
-- internal/core/commands_set.go, over the map `setStore`. A set is changed through the pointer that the
-- map holds, so the changed set is written back under its key.
use redi_go.Prelude.{Bytes, codes, List, [], ◌∷◌, false, Option, none, some}
use redi_go.Go.Map
use redi_go.Go.Map.{Map}
use redi_go.Resp.Value.{strings}
use redi_go.Resp.Encode.{encode}
use redi_go.SimpleSet
use redi_go.SimpleSet.{SimpleSet}
use redi_go.Core.Reply.{fail, int_reply}

-- set, exist := setStore[key], and the new set where it does not exist
unfoldable pub set_at : Map SimpleSet → Bytes → SimpleSet
set_at store key = elim (Map.get store key) [ none ↦ SimpleSet.new_simple_set key | some set ↦ set ]

abbrev pub set_arity : Bytes
set_arity = fail (codes "(error) ERR wrong number of arguments for 'SADD' command")

unfoldable pub cmd_sadd : Map SimpleSet → List Bytes → Map SimpleSet × Bytes
unfolding set_at
cmd_sadd store (key ∷ m ∷ ms) =
    let (set, count) = SimpleSet.add (set_at store key) (m ∷ ms) in
    (Map.put store key set, int_reply count)
cmd_sadd store args = (store, set_arity)

-- A key that does not exist is created here too.
unfoldable pub cmd_srem : Map SimpleSet → List Bytes → Map SimpleSet × Bytes
unfolding set_at
cmd_srem store (key ∷ m ∷ ms) =
    let (set, count) = SimpleSet.rem (set_at store key) (m ∷ ms) in
    (Map.put store key set, int_reply count)
cmd_srem store args = (store, set_arity)

members_reply : (List Bytes → List Bytes) → Option SimpleSet → Bytes
members_reply visit none = encode (strings []) false
members_reply visit (some set) = encode (strings (SimpleSet.members visit set)) false

unfoldable pub cmd_smembers : (List Bytes → List Bytes) → Map SimpleSet → List Bytes → Bytes
unfolding members_reply
cmd_smembers visit store (key ∷ []) = members_reply visit (Map.get store key)
cmd_smembers visit store args =
    fail (codes "(error) ERR wrong number of arguments for 'SMEMBERS' command")

member_reply : Bytes → Option SimpleSet → Bytes
member_reply member none = int_reply 0
member_reply member (some set) = int_reply (SimpleSet.is_member set member)

unfoldable pub cmd_sismember : Map SimpleSet → List Bytes → Bytes
unfolding member_reply
cmd_sismember store (key ∷ member ∷ []) = member_reply member (Map.get store key)
cmd_sismember store args =
    fail (codes "(error) ERR wrong number of arguments for 'SISMEMBER' command")
