-- ===== src/Server/ReadCommand.antt =====
-- `readCommand` and `readCommandConn` of internal/server/server.go: one read of a connection.
pub mod Agreement
use redi_go.Prelude.{Bytes, ℕ, [], ◌∷◌}
use redi_go.Go.Result.{Result, ok, err, panic, hang}
use redi_go.Go.Slice.{read_into, whole_buffer}
use redi_go.Resp.Command.{Command, parse_cmd}

-- io.EOF, syscall.ECONNRESET, and the others with their messages.
pub data ReadError : Type 0 where
  eof : ReadError
  conn_reset : ReadError
  other_error : Bytes → ReadError

-- What a read gives: an error, or bytes, of which as many are read as the buffer holds.
pub data ReadResult : Type 0 where
  read_failed : ReadError → ReadResult
  bytes_read : Bytes → ReadResult

-- What the two functions return.
pub data Received : Type 0 where
  received : Command → Received
  refused : ReadError → Received

-- An error of `ParseCmd` is returned as it is.
abbrev pub parsed : Result Command → Result Received
parsed (ok c) = ok (received c)
parsed (err e) = ok (refused (other_error e))
parsed panic = panic
parsed hang = hang

module _ (upper_unicode : Bytes → Bytes) where
  -- The whole buffer is parsed, with the zeros behind what was read.
  unfoldable pub read_command : ReadResult → Result Received
  read_command (read_failed e) = ok (refused e)
  read_command (bytes_read []) = ok (refused eof)
  read_command (bytes_read (c ∷ s)) = parsed (parse_cmd upper_unicode (whole_buffer 512 (c ∷ s)))

  unfoldable pub read_command_conn : ReadResult → Result Received
  read_command_conn (read_failed e) = ok (refused e)
  read_command_conn (bytes_read s) = parsed (parse_cmd upper_unicode (read_into 512 s))
