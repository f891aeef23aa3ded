-- ===== src/Process/Frames/Roundtrip.antt =====
-- Reading what was written: the frames of frontik/process.py.
use native.Mathlib.Nat.{pow-suc}
use mathlib.Core.List.{append_assoc}
use frontik.Prelude.{
  Bytes, ℕ, zero, suc, ◌*◌, ◌/◌, ◌^◌, ◌≤◌, ◌<◌, ◌≡◌, ◌∙◌, refl, ap, false, List, [], ◌∷◌, ◌++◌,
  some, ltb, length, arith, All,
}
use frontik.Process.Frames.{
  message_header_magic, pack, unpack, frame, strip_prefix, find_magic, read_until, read_exactly,
  message, round, read_size, closed, listen,
}

not_ltb : (a b : ℕ) → b ≤ a → ltb a b ≡ false
not_ltb a b h = ground arith

unpack-pack : (k n : ℕ) → n < 256 ^ k → unpack (pack k n) ≡ n
unfolding unpack pack
unpack-pack zero n h = omega arith
unpack-pack (suc k) n h =
    let room : n < 256 ^ k * 256 = rw (← pow-suc) h in
    omega (arith, unpack-pack k (n / 256) (omega arith))

length-pack : (k n : ℕ) → length (pack k n) ≡ k
unfolding pack
length-pack zero n = refl
length-pack (suc k) n = ap suc (length-pack k (n / 256))

read_exactly-append : (xs rest : Bytes) → read_exactly (length xs) (xs ++ rest) ≡ some (xs, rest)
unfolding read_exactly
read_exactly-append [] rest = refl
read_exactly-append (x ∷ xs) rest = rw (read_exactly-append xs rest)

read_exactly_of_length :
    (n : ℕ) (xs rest : Bytes) → length xs ≡ n → read_exactly n (xs ++ rest) ≡ some (xs, rest)
read_exactly_of_length n xs rest h = rw (← h) (read_exactly-append xs rest)

strip_prefix-append : (xs rest : Bytes) → strip_prefix xs (xs ++ rest) ≡ some rest
unfolding strip_prefix
strip_prefix-append [] rest = refl
strip_prefix-append (x ∷ xs) rest = ground (arith, strip_prefix-append xs rest)

pub find_magic-magic : (rest : Bytes) → find_magic (message_header_magic ++ rest) ≡ some (0, rest)
unfolding find_magic
find_magic-magic rest = refl

read_size-frame :
    (data_raw rest : Bytes)
    → length data_raw < 2 ^ 64
    → read_size (read_exactly 8 ((pack 8 (length data_raw) ++ data_raw) ++ rest))
      ≡ message data_raw rest
unfolding read_size
read_size-frame data_raw rest h =
    let size = pack 8 (length data_raw) in
    rw (append_assoc size data_raw rest) (
      rw (read_exactly_of_length 8 size (data_raw ++ rest) (length-pack 8 _))
        (rw (unpack-pack 8 (length data_raw) h) (rw (read_exactly-append data_raw rest))))

-- the listener behind a separator that not too much stands in front of
pub round_of_find :
    (limit n : ℕ) (bytes data_raw rest : Bytes)
    → n ≤ limit
    → find_magic bytes ≡ some (n, (pack 8 (length data_raw) ++ data_raw) ++ rest)
    → length data_raw < 2 ^ 64
    → round limit bytes ≡ message data_raw rest
unfolding round read_until
round_of_find limit n bytes data_raw rest near e h =
    rw e (rw (not_ltb limit n near) (read_size-frame data_raw rest h))

pub frame-append :
    (data_raw rest : Bytes)
    → frame data_raw ++ rest
      ≡ message_header_magic ++ ((pack 8 (length data_raw) ++ data_raw) ++ rest)
unfolding frame
frame-append data_raw rest = refl

-- the bytes of one message are one round of the listener, whatever follows them
pub round-frame :
    (limit : ℕ) (data_raw rest : Bytes)
    → length data_raw < 2 ^ 64
    → round limit (frame data_raw ++ rest) ≡ message data_raw rest
round-frame limit data_raw rest h =
    round_of_find limit 0 _ data_raw rest (omega arith)
      (ap find_magic (frame-append data_raw rest) ∙ find_magic-magic _) h

abbrev pub frames : List Bytes → Bytes
frames [] = []
frames (m ∷ ms) = frame m ++ frames ms

-- A message's size fits into its eight bytes.
abbrev pub Fits : Bytes → Type 0
Fits data_raw = length data_raw < 2 ^ 64

-- one round that delivers a message
pub listen_of_round :
    (fuel limit : ℕ) (bytes data_raw rest : Bytes)
    → round limit bytes ≡ message data_raw rest
    → listen (suc fuel) limit bytes
      ≡ (data_raw ∷ (listen fuel limit rest).0, (listen fuel limit rest).1)
unfolding listen
listen_of_round fuel limit bytes data_raw rest e = rw (e, listen)

pub listen-frame :
    (fuel limit : ℕ) (data_raw rest : Bytes)
    → Fits data_raw
    → listen (suc fuel) limit (frame data_raw ++ rest)
      ≡ (data_raw ∷ (listen fuel limit rest).0, (listen fuel limit rest).1)
listen-frame fuel limit data_raw rest h =
    listen_of_round fuel limit _ data_raw rest (round-frame limit data_raw rest h)

listen_end : (fuel limit : ℕ) → listen (suc fuel) limit [] ≡ ([], closed)
unfolding listen round read_until find_magic
listen_end fuel limit = ground arith

-- The listener hands over exactly the messages that were written whole, in their order, and exits
-- when the master closes the pipe; one round more than there are messages is enough.
pub listen-frames :
    (limit : ℕ) (messages : List Bytes)
    → All Fits messages
    → listen (suc (length messages)) limit (frames messages) ≡ (messages, closed)
listen-frames limit [] h = listen_end 0 limit
listen-frames limit (m ∷ ms) (h, hs) =
    listen-frame (suc (length ms)) limit m (frames ms) h ∙ rw (listen-frames limit ms hs)
