-- ===== src/Process/Frames/Resync.antt =====
-- How the listener of frontik/process.py gets over bytes that belong to no whole message.
use mathlib.Core.List.{append_assoc}
use frontik.Prelude.{
  Bytes, ℕ, zero, refl, suc, ◌+◌, ◌^◌, ◌≤◌, ◌<◌, ◌≡◌, ◌≢◌, ◌∙◌, ap, sym, [], ◌∷◌, ◌++◌, none, some,
  length, length-append, arith, All,
}
use frontik.Process.Frames.{
  message_header_magic, pack, frame, strip_prefix, find_magic, read_until, stalls, round,
  out_of_fuel, listen,
}
use frontik.Process.Frames.Roundtrip.{
  round_of_find, frame-append, find_magic-magic, listen_of_round, listen-frame, Fits,
}

-- No separator begins in these bytes and ends in them.
abbrev pub HasNoMagic : Bytes → Type 0
HasNoMagic [] = Unit
HasNoMagic (b ∷ bytes) = (strip_prefix message_header_magic (b ∷ bytes) ≡ none) × HasNoMagic bytes

-- The rest of a separator does not hold its first byte, so that the next separator cannot begin in it.
strip_prefix-none_append :
    (tail bytes rest : Bytes)
    → All (λ m. m ≢ b'T') tail
    → strip_prefix tail bytes ≡ none
    → strip_prefix tail (bytes ++ b'T' ∷ rest) ≡ none
unfolding strip_prefix
strip_prefix-none_append [] bytes rest h e = cc
strip_prefix-none_append (m ∷ tail) [] rest (h, hs) e = ground arith
strip_prefix-none_append (m ∷ tail) (b ∷ bytes) rest (h, hs) e =
    ground (arith, strip_prefix-none_append tail bytes rest hs)

strip_prefix-none_cons :
    (m : ℕ) (tail : Bytes) (b : ℕ) (bytes rest : Bytes)
    → All (λ m. m ≢ b'T') tail
    → strip_prefix (m ∷ tail) (b ∷ bytes) ≡ none
    → strip_prefix (m ∷ tail) (b ∷ (bytes ++ b'T' ∷ rest)) ≡ none
unfolding strip_prefix
strip_prefix-none_cons m tail b bytes rest hs e =
    ground (arith, strip_prefix-none_append tail bytes rest hs)

abbrev magic_tail : Bytes
magic_tail = b'1' ∷ b'u' ∷ b'f' ∷ b'3' ∷ b'1' ∷ b'f' ∷ []

no_magic_before :
    (b : ℕ) (bytes rest : Bytes)
    → strip_prefix message_header_magic (b ∷ bytes) ≡ none
    → strip_prefix message_header_magic (b ∷ (bytes ++ (message_header_magic ++ rest))) ≡ none
no_magic_before b bytes rest h =
    strip_prefix-none_cons b'T' magic_tail b bytes (magic_tail ++ rest) (omega arith) h

find_magic_behind :
    (garbage rest : Bytes)
    → HasNoMagic garbage
    → find_magic (garbage ++ (message_header_magic ++ rest)) ≡ some (length garbage, rest)
unfolding find_magic
find_magic_behind [] rest h = find_magic-magic rest
find_magic_behind (b ∷ garbage) rest (h, hs) =
    rw (no_magic_before b garbage rest h, find_magic) (rw (find_magic_behind garbage rest hs))

-- Behind at most `limit` bytes in which no separator begins and ends, the listener finds the next
-- message and goes on as if the bytes were not there.
listen-resync :
    (fuel limit : ℕ) (garbage data_raw rest : Bytes)
    → HasNoMagic garbage
    → length garbage ≤ limit
    → Fits data_raw
    → listen (suc fuel) limit (garbage ++ (frame data_raw ++ rest))
      ≡ listen (suc fuel) limit (frame data_raw ++ rest)
listen-resync fuel limit garbage data_raw rest clean near fits =
    listen_of_round fuel limit _ data_raw rest (
      round_of_find limit (length garbage) _ data_raw rest near
        (ap (λ bytes. find_magic (garbage ++ bytes)) (frame-append data_raw rest)
          ∙ find_magic_behind garbage _ clean)
        fits)
    ∙ sym (listen-frame fuel limit data_raw rest fits)

broken_stream :
    (part eaten left tail : Bytes)
    → message_header_magic
        ++ (pack 8 (length part + length eaten) ++ (part ++ ((eaten ++ left) ++ tail)))
      ≡ frame (part ++ eaten) ++ (left ++ tail)
broken_stream part eaten left tail =
    rw (frame-append (part ++ eaten) (left ++ tail), length-append part eaten) (simp append_assoc)

-- A write that blocked behind the header of an `n` byte message, where some of its bytes were
-- written, the next message is written twice, and both lengths fit in eight bytes: if the missing bytes of
-- the `n` lie within the first copy of the next message, and what is left of that copy is no longer
-- than the limit of the reader and has no beginning of the magic bytes before the second copy, then
-- the listener delivers a message that ends in the first copy's bytes, then the second copy, and
-- goes on with what follows.
pub listen-after_partial :
    (fuel limit n : ℕ) (part eaten left data_raw rest : Bytes)
    → n < 2 ^ 64
    → length part + length eaten ≡ n
    → frame data_raw ≡ eaten ++ left
    → HasNoMagic left
    → length left ≤ limit
    → Fits data_raw
    → listen (suc (suc fuel)) limit (
        message_header_magic
        ++ (pack 8 n ++ (part ++ (frame data_raw ++ (frame data_raw ++ rest)))))
      ≡ ((part ++ eaten) ∷ data_raw ∷ (listen fuel limit rest).0, (listen fuel limit rest).1)
listen-after_partial fuel limit n part eaten left data_raw rest room total split clean near fits =
    let tail = frame data_raw ++ rest in
    let whole : Fits (part ++ eaten) = omega (arith, length-append part eaten, room, total) in
    let behind =
      listen-resync fuel limit left data_raw rest clean near fits
      ∙ listen-frame fuel limit data_raw rest fits in
    let stream =
      ap (λ bytes. message_header_magic ++ (pack 8 n ++ (part ++ (bytes ++ tail)))) split
      ∙ ap (λ size. message_header_magic ++ (pack 8 size ++ (part ++ ((eaten ++ left) ++ tail))))
          (sym total)
      ∙ broken_stream part eaten left tail in
    ap (listen (suc (suc fuel)) limit) stream
    ∙ listen-frame (suc fuel) limit (part ++ eaten) (left ++ tail) whole
    ∙ ap (λ r. ((part ++ eaten) ∷ r.0, r.1)) behind

round-stalls :
    (limit : ℕ) (garbage rest : Bytes)
    → HasNoMagic garbage
    → limit < length garbage
    → round limit (garbage ++ (message_header_magic ++ rest)) ≡ stalls
unfolding round read_until
round-stalls limit garbage rest clean far = rw (find_magic_behind garbage rest clean) (ground arith)

listen_of_stall :
    (fuel limit : ℕ) (bytes : Bytes)
    → round limit bytes ≡ stalls
    → listen (suc fuel) limit bytes ≡ listen fuel limit bytes
unfolding listen
listen_of_stall fuel limit bytes e = rw (e, listen)

-- When the stream begins with more than `limit` bytes in which the magic does not begin, and a message
-- follows, the listener does not exit and delivers no message, however many rounds its loop makes:
-- it never comes to the messages that follow.
pub listen-stalls :
    (fuel limit : ℕ) (garbage data_raw rest : Bytes)
    → HasNoMagic garbage
    → limit < length garbage
    → listen fuel limit (garbage ++ (frame data_raw ++ rest)) ≡ ([], out_of_fuel)
unfolding listen
listen-stalls zero limit garbage data_raw rest clean far = refl
listen-stalls (suc fuel) limit garbage data_raw rest clean far =
    let stays : round limit (garbage ++ (frame data_raw ++ rest)) ≡ stalls =
      rw (frame-append data_raw rest) (round-stalls limit garbage _ clean far) in
    listen_of_stall fuel limit (garbage ++ (frame data_raw ++ rest)) stays
    ∙ listen-stalls fuel limit garbage data_raw rest clean far
