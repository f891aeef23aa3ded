-- ===== src/Process/Frames.antt =====
-- The messages on a worker's pipe (frontik/process.py): what `__send_update` writes for one message,
-- and `_worker_listener`, over a pipe whose bytes are all known. Bytes are numbers.
pub mod Roundtrip
pub mod Resync
use frontik.Prelude.{
  ℕ, zero, suc, ◌+◌, ◌*◌, ◌/◌, ◌%◌, List, [], ◌∷◌, ◌++◌, Option, none, some, ltb, eqb,
  if◌then◌else◌, length, Bytes,
}

-- `MESSAGE_HEADER_MAGIC`, b'T1uf31f'
abbrev pub message_header_magic : Bytes
message_header_magic = b'T' ∷ b'1' ∷ b'u' ∷ b'f' ∷ b'3' ∷ b'1' ∷ b'f' ∷ []

-- The `k` bytes of `n`, the lowest first: `struct.pack('=Q', n)` for `k = 8` on a little-endian host.
unfoldable pub pack : ℕ → ℕ → Bytes
pack zero n = []
pack (suc k) n = n % 256 ∷ pack k (n / 256)

unfoldable pub unpack : Bytes → ℕ
unpack [] = 0
unpack (b ∷ bytes) = b + 256 * unpack bytes

-- the bytes that `__send_update` writes for `data`
unfoldable pub frame : Bytes → Bytes
frame message = message_header_magic ++ (pack 8 (length message) ++ message)

-- the bytes behind a prefix
unfoldable pub strip_prefix : Bytes → Bytes → Option Bytes
strip_prefix [] bytes = some bytes
strip_prefix (m ∷ magic) [] = none
strip_prefix (m ∷ magic) (b ∷ bytes) =
    let rest = strip_prefix magic bytes in if eqb m b then rest else none

-- The first separator in the stream: how many bytes stand before it, and what stands behind it.
unfoldable pub find_magic : Bytes → Option (ℕ × Bytes)
unfolding strip_prefix
find_magic [] = none
find_magic (b ∷ bytes) =
    let later = find_magic bytes in
    elim (strip_prefix message_header_magic (b ∷ bytes)) [
      | some rest ↦ some (0, rest)
      | none ↦ elim later [ none ↦ none | some (n, rest) ↦ some (suc n, rest) ]
    ]

-- `StreamReader.readuntil`: at the end of the stream it raises `IncompleteReadError`, and when more
-- than `limit` bytes stand before the separator it raises `LimitOverrunError` and takes nothing.
pub data Until : Type 0 where
  read : Bytes → Until
  incomplete overrun : Until

within : ℕ → Bytes → Option (ℕ × Bytes) → Until
within limit bytes none =
    if ltb (limit + length message_header_magic) (length bytes + 1) then overrun else incomplete
within limit bytes (some (n, rest)) = if ltb limit n then overrun else read rest

unfoldable pub read_until : ℕ → Bytes → Until
unfolding within
read_until limit bytes = within limit bytes (find_magic bytes)

-- `StreamReader.readexactly`
unfoldable pub read_exactly : ℕ → Bytes → Option (Bytes × Bytes)
read_exactly zero bytes = some ([], bytes)
read_exactly (suc n) [] = none
read_exactly (suc n) (b ∷ bytes) = elim (read_exactly n bytes) [
  | none ↦ none
  | some (taken, rest) ↦ some (b ∷ taken, rest)
]

-- One round of the loop of `_worker_listener`.
pub data Round : Type 0 where
  message : Bytes → Bytes → Round
  -- `IncompleteReadError`: the process exits
  exits : Round
  -- an error that is logged and takes nothing from the stream
  stalls : Round

read_body : Option (Bytes × Bytes) → Round
read_body none = exits
read_body (some (data_raw, rest)) = message data_raw rest

unfoldable pub read_size : Option (Bytes × Bytes) → Round
unfolding read_body
read_size none = exits
read_size (some (size_header, rest)) = read_body (read_exactly (unpack size_header) rest)

unfoldable pub after_magic : Until → Round
after_magic incomplete = exits
after_magic overrun = stalls
after_magic (read rest) = read_size (read_exactly 8 rest)

unfoldable pub round : ℕ → Bytes → Round
unfolding after_magic
round limit bytes = after_magic (read_until limit bytes)

pub data Ending : Type 0 where
  closed out_of_fuel : Ending

-- The raw messages that the listener hands to `pickle.loads`, oldest first, and whether
-- it ends or the rounds of the fuel are over.
unfoldable pub listen : ℕ → ℕ → Bytes → List Bytes × Ending
listen zero limit bytes = ([], out_of_fuel)
listen (suc fuel) limit bytes = elim (round limit bytes) [
  | exits ↦ ([], closed)
  | stalls ↦ listen fuel limit bytes
  | message data_raw rest ↦
      let (messages, ending) = listen fuel limit rest in (data_raw ∷ messages, ending)
]

-- A message that cannot be loaded is logged and skipped; `loads` and the handler are given.
unfoldable pub handled : {Message : Type 0} → (Bytes → Option Message) → List Bytes → List Message
handled loads [] = []
handled loads (data_raw ∷ rest) =
    let later = handled loads rest in elim (loads data_raw) [ none ↦ later | some m ↦ m ∷ later ]
