-- ===== src/Core/Worker.antt =====
-- internal/core/worker.go: the commands of a worker, over a dictionary of its own. The eviction pool is
-- a variable of the package, which all workers share.
use redi_go.Prelude.{Bytes, codes, List, [], ◌∷◌, beq, if◌then◌else◌}
use redi_go.Prelude.Int.{negsuc}
use redi_go.Go.Decimal.{parse_int}
use redi_go.Resp.Command.{Command}
use redi_go.Core.KeyCommands.{Keyspace, Env, cmd_ping, store_value, store_ttl, set_arity, cmd_get}
use redi_go.Core.Executor.{cmd_not_found}

-- Unlike the other executor's, this `cmdSET` never looks at `args[2]`.
unfoldable pub cmd_set : Env → Keyspace → List Bytes → Keyspace × Bytes
unfolding store_value store_ttl
cmd_set env s (key ∷ value ∷ []) = store_value env s key value (negsuc 0)
cmd_set env s (key ∷ value ∷ option ∷ ttl ∷ []) = store_ttl env s key value (parse_int ttl)
cmd_set env s args = (s, set_arity)

-- `cmdPING` and `cmdGET` read as those of executor.go.
unfoldable pub execute : Env → Keyspace → Command → Keyspace × Bytes
execute env s c =
    if beq c.cmd (codes "SET")
    then cmd_set env s c.args
    else if beq c.cmd (codes "GET")
    then cmd_get env s c.args
    else if beq c.cmd (codes "PING")
    then (s, cmd_ping c.args)
    else (s, cmd_not_found)
