-- ===== src/Handler/Body.antt =====
-- The body of a request: `TornadoConnectionHandler` of frontik/tornado_connection_handler.py puts
-- its chunks into a queue, and `receive` of frontik/handler_asgi.py hands them to the application.
pub mod Queue
pub mod Delivery
use frontik.Prelude.{
  ℕ, Bytes, Bool, true, false, not, ◌&&◌, ◌||◌, Option, none, some, List, [], ◌∷◌, ◌++◌, ltb,
  if◌then◌else◌, length,
}

-- a chunk, or the object `EOF`
pub data Chunk : Type 0 where
  chunk : Bytes → Chunk
  eof : Chunk

-- the fields of `FrontikTornadoServerRequest` (frontik/tornado_request.py)
pub record Body : Type 0 where
  pub body_chunks : List Chunk
  pub finished : Bool
  pub canceled : Bool

-- the message that `receive` returns
pub data Received : Type 0 where
  http_request : (body : Chunk) (more_body : Bool) → Received
  http_disconnect : Received

-- The capacity of the queue is `maxsize`, 100000 in the source.
module _ (maxsize : ℕ) where
  -- `put`, which waits for a place, or `put_nowait`, which raises `QueueFull`: nothing is put
  pub put : Chunk → Body → Body
  put c b =
      if ltb (length b.body_chunks) maxsize
      then record b { body_chunks = b.body_chunks ++ c ∷ [] }
      else b

  pub finish : Body → Body
  unfolding put
  finish b = put eof (record b { finished = true })

  pub on_connection_close : Body → Body
  unfolding put
  on_connection_close b = put eof (record b { finished = true; canceled = true })

unfoldable pub is_eof : Chunk → Bool
is_eof (chunk bytes) = false
is_eof eof = true

-- what `receive` makes of the chunk that it has taken
pub received : Body → Chunk → Received
unfolding is_eof
received b c =
    if b.canceled
    then http_disconnect
    else if b.finished && is_eof c
    then http_request (chunk []) false
    else http_request c (not b.finished || not (is_eof c))

-- `receive`, which waits as long as the queue is empty
pub receive : Body → Option (Received × Body)
unfolding received
receive b = elim b.body_chunks [
  | [] ↦ none
  | c ∷ cs ↦ some (received b c, record b { body_chunks = cs })
]

-- What may happen on a connection, in the order in which it happens.
pub data Event : Type 0 where
  arrives : Bytes → Event
  ends closes receives : Event

-- The body with what has arrived so far, what the application has received of it, whether it was
-- told that there is no more, and whether it was given the object `EOF`.
pub record Log : Type 0 where
  pub body : Body
  pub arrived : Bytes
  pub given : Bytes
  pub ended : Bool
  pub leaked : Bool

abbrev pub start : Log
start = record {
  body = record { body_chunks = []; finished = false; canceled = false };
  arrived = [];
  given = [];
  ended = false;
  leaked = false;
}

pub take : Option (Received × Body) → Log → Log
take none log = log
take (some (http_disconnect, b)) log = record log { body = b }
take (some (http_request (chunk bytes) more, b)) log = record log {
  body = b;
  given = log.given ++ bytes;
  ended = log.ended || not more;
}
take (some (http_request eof more, b)) log = record log { body = b; leaked = true }

module _ (maxsize : ℕ) where
  -- `data_received`, which Tornado calls again only when the chunk before is put, and not after
  -- `finish`, which it calls once
  pub step : Event → Log → Log
  unfolding put finish on_connection_close receive take
  step (arrives bytes) log =
      if log.body.finished || not (ltb (length log.body.body_chunks) maxsize)
      then log
      else record log { body = put maxsize (chunk bytes) log.body; arrived = log.arrived ++ bytes }
  step ends log = if log.body.finished then log else record log { body = finish maxsize log.body }
  step closes log = record log { body = on_connection_close maxsize log.body }
  step receives log = take (receive log.body) log

  unfoldable pub run : List Event → Log → Log
  unfolding step
  run [] log = log
  run (event ∷ events) log = run events (step event log)
