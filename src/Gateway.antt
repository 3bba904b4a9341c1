-- ===== src/Gateway.antt =====
-- cmd/gateway/main.go: the HTTP gateway, which sends the text of a request to the server as a command.
--
-- The network is an argument: what a dial of an address gives, and what one write and one read on the
-- connection give. Logging, timeouts and the JSON texts are not modelled: a request body is the command
-- that it holds, if it is JSON.
pub mod Reply
use redi_go.Prelude.{
  Bytes, codes, ℕ, ◌-◌, List, [], ◌∷◌, ◌++◌, ◌≡◌, refl, Bool, true, false, Option, none, some,
  length, take, replicate,
}
use redi_go.Go.Result.{Result, ok, err, panic, hang, ◌>>=◌}
use redi_go.Go.Float.{Floats}
use redi_go.Go.Slice.{Slice, read_into}
use redi_go.Go.Text.{fields, trim_space}
use redi_go.Resp.Value.{Value, null, str, array, str_items}
use redi_go.Resp.Decode.{decode}
use redi_go.Resp.Encode.{encode}
use redi_go.Stats.{AllStats, VirtualMemory, get_all_stats}

-- What a write of a request and the read after it give. An answer is what the server has sent.
pub data Exchange : Type 0 where
  write_error : Bytes → Exchange
  at_end : Exchange
  read_error : Bytes → Exchange
  answer : Bytes → Exchange

-- net.DialTimeout
pub data Dialled : Type 0 where
  refused : Bytes → Dialled
  connected : (Bytes → Exchange) → Dialled

-- buf[:n] of a buffer of 512 bytes that one read has filled as far as it can
abbrev pub read_buffer : Bytes → Slice
read_buffer s = read_into 512 s

-- A response that cannot be decoded is returned as it is.
abbrev pub decoded_response : Bytes → Result Value → Result Value
decoded_response raw (ok v) = ok v
decoded_response raw (err e) = ok (str raw)
decoded_response raw panic = panic
decoded_response raw hang = hang

unfoldable pub read_response : Exchange → Result Value
read_response (write_error e) = err e
read_response at_end = err (codes "connection closed by server: EOF")
read_response (read_error e) = err e
read_response (answer s) = decoded_response (take 512 s) (decode (read_buffer s))

unfoldable pub send_parts : (Bytes → Exchange) → List Bytes → Result Value
send_parts exchange [] = err (codes "empty command")
send_parts exchange (p ∷ ps) = read_response (exchange (encode (array (str_items (p ∷ ps))) false))

abbrev pub address : Bytes → Bytes
address [] = codes "localhost:6379"
address (c ∷ s) = c ∷ s

abbrev pub on_connection : Dialled → Bytes → Result Value
on_connection (refused e) cmd = err e
on_connection (connected exchange) cmd = send_parts exchange (fields (trim_space cmd))

unfoldable pub send_to_redis : (Bytes → Dialled) → Bytes → Bytes → Result Value
send_to_redis dial redis_addr cmd = on_connection (dial (address redis_addr)) cmd

pub record CommandResponse : Type 0 where
  pub output : Value
  pub error : Bytes

pub data HttpResponse : Type 0 where
  -- http.Error(w, text, code)
  http_error : Bytes → ℕ → HttpResponse
  -- w.WriteHeader(code)
  header_only : ℕ → HttpResponse
  json : CommandResponse → HttpResponse
  stats_json : AllStats → HttpResponse

abbrev pub command_response : Result Value → Result HttpResponse
command_response (ok v) = ok (json (record { output = v; error = [] }))
command_response (err e) = ok (json (record { output = null; error = e }))
command_response panic = panic
command_response hang = hang

-- The body is the command, or none if it is not JSON.
unfoldable pub handle_command : (Bytes → Dialled) → Bytes → Option Bytes → Result HttpResponse
handle_command dial redis_addr none = ok (http_error (codes "Invalid JSON") 400)
handle_command dial redis_addr (some cmd) = command_response (send_to_redis dial redis_addr cmd)

abbrev stats_response : Result AllStats → Result HttpResponse
stats_response (ok stats) = ok (stats_json stats)
stats_response (err e) = ok (http_error (codes "Failed to get system stats") 500)
stats_response panic = panic
stats_response hang = hang

-- `handleStats`, for what gopsutil returns.
unfoldable pub handle_stats :
    (F : Floats) (sprint_2f : F.Float → Bytes)
    → Result (List F.Float)
    → Result (VirtualMemory F sprint_2f)
    → Result HttpResponse
handle_stats F sprint_2f percent virtual_memory =
    stats_response (get_all_stats F sprint_2f percent virtual_memory)

-- `corsMiddleware`: `options` tells that the method is OPTIONS.
unfoldable pub cors_middleware :
    (Option Bytes → Result HttpResponse) → Bool → Option Bytes → Result HttpResponse
cors_middleware next true body = ok (header_only 200)
cors_middleware next false body = next body
