-- ===== src/Handler/Body/Queue.antt =====
-- What the queue of frontik/tornado_connection_handler.py holds, and how it grows.
use frontik.Prelude.{
  ℕ, Bytes, Bool, true, false, ◌||◌, List, [], ◌∷◌, ◌++◌, ltb, length, ◌≡◌, refl, arith, Bool-cases,
  inl, inr,
}
use mathlib.Core.List.{append_assoc, append-nil}
use frontik.Handler.Body.{
  Chunk, chunk, eof, put, finish, is_eof, Event, arrives, ends, receives, Log, step,
}

-- the bytes in the queue
unfoldable pub queued : List Chunk → Bytes
queued [] = []
queued (chunk bytes ∷ cs) = bytes ++ queued cs
queued (eof ∷ cs) = queued cs

unfoldable pub has_eof : List Chunk → Bool
has_eof [] = false
has_eof (c ∷ cs) = is_eof c || has_eof cs

-- nothing stands behind an `EOF`
unfoldable pub eof_last : List Chunk → Bool
eof_last [] = true
eof_last (chunk bytes ∷ cs) = eof_last cs
eof_last (eof ∷ []) = true
eof_last (eof ∷ c ∷ cs) = false

is_nil : List Chunk → Bool
is_nil [] = true
is_nil (c ∷ cs) = false

-- one call of `receive` for each chunk in the queue
unfoldable pub receive_all : List Chunk → List Event
receive_all [] = []
receive_all (c ∷ cs) = receives ∷ receive_all cs

-- a body that has not been canceled
pub record IsIntact (log : Log) : Type 0 where
  pub whole : log.given ++ queued log.body.body_chunks ≡ log.arrived
  pub last : eof_last log.body.body_chunks ≡ true
  pub before : log.body.finished ≡ false → has_eof log.body.body_chunks ≡ false
  pub done : log.ended ≡ true → (log.body.finished ≡ true) × (log.body.body_chunks ≡ [])
  pub sealed : log.leaked ≡ false

queued-append : (xs ys : List Chunk) → queued (xs ++ ys) ≡ queued xs ++ queued ys
unfolding queued
queued-append [] ys = refl
queued-append (chunk bytes ∷ xs) ys = rw (queued-append xs ys) (simp append_assoc)
queued-append (eof ∷ xs) ys = queued-append xs ys

has_eof-append : (xs ys : List Chunk) → has_eof (xs ++ ys) ≡ (has_eof xs || has_eof ys)
unfolding has_eof
has_eof-append [] ys = refl
has_eof-append (x ∷ xs) ys = ground (arith, has_eof-append xs ys)

eof_last-append :
    (xs : List Chunk) (c : Chunk) → has_eof xs ≡ false → eof_last (xs ++ c ∷ []) ≡ true
unfolding eof_last has_eof is_eof
eof_last-append [] (chunk bytes) h = refl
eof_last-append [] eof h = refl
eof_last-append (chunk bytes ∷ xs) c h = eof_last-append xs c h
eof_last-append (eof ∷ xs) c h = cc h

pub arrives-IsIntact :
    (maxsize : ℕ) (bytes : Bytes) (log : Log)
    → IsIntact log
    → IsIntact (step maxsize (arrives bytes) log)
unfolding step put queued has_eof is_eof
arrives-IsIntact maxsize bytes log i = elim (Bool-cases log.body.finished) [
  | inl h ↦ simp h i
  | inr h ↦ elim (Bool-cases (ltb (length log.body.body_chunks) maxsize)) [
    | inr full ↦ simp (h, full) i
    | inl room ↦
        simp (h, room)
          (record {
            whole =
                rw (queued-append log.body.body_chunks (chunk bytes ∷ []), ← i.whole)
                  (simp (append_assoc, append-nil));
            last = eof_last-append log.body.body_chunks (chunk bytes) (i.before h);
            before =
                λ _. rw (has_eof-append log.body.body_chunks (chunk bytes ∷ []), i.before h) refl;
            done = λ e. ground (arith, i.done e);
            sealed = i.sealed;
          })
  ]
]

pub ends-IsIntact : (maxsize : ℕ) (log : Log) → IsIntact log → IsIntact (step maxsize ends log)
unfolding step put finish queued
ends-IsIntact maxsize log i = elim (Bool-cases log.body.finished) [
  | inl h ↦ simp h i
  | inr h ↦ elim (Bool-cases (ltb (length log.body.body_chunks) maxsize)) [
    | inr full ↦
        simp (h, full)
          (record {
            whole = i.whole;
            last = i.last;
            before = λ e. cc e;
            done = λ e. ground (arith, i.done e);
            sealed = i.sealed;
          })
    | inl room ↦
        simp (h, room)
          (record {
            whole = rw (queued-append log.body.body_chunks (eof ∷ []), ← i.whole) (simp append-nil);
            last = eof_last-append log.body.body_chunks eof (i.before h);
            before = λ e. cc e;
            done = λ e. ground (arith, i.done e);
            sealed = i.sealed;
          })
  ]
]
