-- ===== src/Handler/Body/Delivery.antt =====
-- No byte of a body is lost, repeated or reordered on its way through the queue.
use frontik.Prelude.{
  ℕ, Bytes, Bool, true, false, List, [], ◌∷◌, ◌++◌, ◌≡◌, refl, sym, arith, Bool-cases, inl, inr,
  ◌⊎◌,
}
use mathlib.Core.Path.{subst}
use mathlib.Core.List.{append_assoc, append-nil}
use frontik.Handler.Body.{
  Chunk, chunk, eof, put, finish, on_connection_close, is_eof, received, receive, Event, arrives,
  ends, closes, receives, Log, start, take, step, run,
}
use frontik.Handler.Body.Queue.{
  IsIntact, arrives-IsIntact, ends-IsIntact, queued, has_eof, eof_last, receive_all,
}

module _ (maxsize : ℕ) where
  -- a body that is not canceled
  abbrev log_of : List Chunk → Bool → Bool → Bool → Bytes → Bytes → Log
  log_of chunks finished ended leaked arrived given = record {
    body = record { body_chunks = chunks; finished = finished; canceled = false };
    arrived = arrived;
    given = given;
    ended = ended;
    leaked = leaked;
  }

  -- a chunk is taken out of the queue
  taken-IsIntact :
      (chunks : List Chunk) (finished ended leaked : Bool) (arrived given : Bytes)
      → IsIntact (log_of chunks finished ended leaked arrived given)
      → IsIntact (step maxsize receives (log_of chunks finished ended leaked arrived given))
  unfolding step receive take received is_eof queued has_eof eof_last
  taken-IsIntact [] finished ended leaked arrived given i = i
  taken-IsIntact (chunk bytes ∷ cs) true ended leaked arrived given i = record {
    whole = ground (arith, append_assoc given bytes (queued cs), i.whole);
    last = i.last;
    before = λ e. cc e;
    done = λ e. ground (arith, i.done);
    sealed = i.sealed;
  }
  taken-IsIntact (chunk bytes ∷ cs) false ended leaked arrived given i = record {
    whole = ground (arith, append_assoc given bytes (queued cs), i.whole);
    last = i.last;
    before = λ e. i.before e;
    done = λ e. ground (arith, i.done);
    sealed = i.sealed;
  }
  taken-IsIntact (eof ∷ []) true ended leaked arrived given i = record {
    whole = rw (append-nil (given ++ [])) i.whole;
    last = refl;
    before = λ e. refl;
    done = λ e. (refl, refl);
    sealed = i.sealed;
  }
  taken-IsIntact (eof ∷ []) false ended leaked arrived given i = cc (i.before refl)
  taken-IsIntact (eof ∷ c ∷ cs) finished ended leaked arrived given i = cc i.last

  step-canceled :
      (event : Event) (log : Log)
      → log.body.canceled ≡ true
      → (step maxsize event log).body.canceled ≡ true
  unfolding step put finish on_connection_close receive received take
  step-canceled (arrives bytes) log h = ground arith
  step-canceled ends log h = ground arith
  step-canceled closes log h = ground arith
  step-canceled receives log h = ground arith

  receives-IsIntact :
      (log : Log) → log.body.canceled ≡ false → IsIntact log → IsIntact (step maxsize receives log)
  receives-IsIntact log h i =
      let with_flag : Bool → Log =
        λ canceled. record log { body = record (log.body) { canceled = canceled } } in
      subst
        (λ canceled.
          IsIntact (with_flag canceled) → IsIntact (step maxsize receives (with_flag canceled)))
        (sym h) (taken-IsIntact _ _ _ _ _ _) i

  closes-canceled : (log : Log) → (step maxsize closes log).body.canceled ≡ true
  unfolding step put on_connection_close
  closes-canceled log = ground arith

  step_open :
      (event : Event) (log : Log)
      → log.body.canceled ≡ false
      → IsIntact log
      → (step maxsize event log).body.canceled ≡ false
      → IsIntact (step maxsize event log)
  step_open (arrives bytes) log h i h' = arrives-IsIntact maxsize bytes log i
  step_open ends log h i h' = ends-IsIntact maxsize log i
  step_open closes log h i h' = cc (closes-canceled log, h')
  step_open receives log h i h' = receives-IsIntact log h i

  step-IsIntact :
      (event : Event) (log : Log)
      → (log.body.canceled ≡ false → IsIntact log)
      → (step maxsize event log).body.canceled ≡ false
      → IsIntact (step maxsize event log)
  step-IsIntact event log i h = elim (Bool-cases log.body.canceled) [
    | inl canceled ↦ cc (h, step-canceled event log canceled)
    | inr h' ↦ step_open event log h' (i h') h
  ]

  run-IsIntact :
      (events : List Event) (log : Log)
      → (log.body.canceled ≡ false → IsIntact log)
      → (run maxsize events log).body.canceled ≡ false
      → IsIntact (run maxsize events log)
  unfolding run
  run-IsIntact [] log i = i
  run-IsIntact (event ∷ events) log i =
      run-IsIntact events (step maxsize event log) (step-IsIntact event log i)

  start-IsIntact : IsIntact start
  unfolding queued eof_last has_eof
  start-IsIntact = record {
    whole = refl;
    last = refl;
    before = λ e. refl;
    done = λ e. cc e;
    sealed = refl;
  }

  -- Whatever happens on the connection, in whatever order, as long as it is not closed: what the
  -- application has received of the body and what is still in the queue is what has arrived, in its
  -- order; the object `EOF` is never handed to it; and when it is told that there is no more, the
  -- request is finished and it has received everything.
  pub run-delivers :
      (events : List Event)
      → (run maxsize events start).body.canceled ≡ false
      → ((run maxsize events start).given ++ queued (run maxsize events start).body.body_chunks
          ≡ (run maxsize events start).arrived)
        × ((run maxsize events start).leaked ≡ false)
        × ((run maxsize events start).ended ≡ false
            ⊎ ((run maxsize events start).body.finished ≡ true)
              × ((run maxsize events start).given ≡ (run maxsize events start).arrived))
  unfolding queued
  run-delivers events h =
      let i = run-IsIntact events start (λ _. start-IsIntact) h in
      (
        i.whole,
        i.sealed,
        elim (Bool-cases (run maxsize events start).ended) [
          | inr e ↦ inl e
          | inl e ↦ inr (
            (i.done e).0,
            ground (arith, i.whole, (i.done e).1, append-nil (run maxsize events start).given),
          )
        ],
      )

  drain :
      (chunks : List Chunk) (ended leaked : Bool) (arrived given : Bytes)
      → has_eof chunks ≡ true
      → eof_last chunks ≡ true
      → (run maxsize (receive_all chunks) (log_of chunks true ended leaked arrived given)).ended
        ≡ true
  unfolding run step receive take received is_eof has_eof eof_last receive_all
  drain [] ended leaked arrived given has last = cc has
  drain (chunk bytes ∷ cs) ended leaked arrived given has last =
      drain cs _ leaked arrived (given ++ bytes) has last
  drain (eof ∷ []) ended leaked arrived given has last = ground arith
  drain (eof ∷ c ∷ cs) ended leaked arrived given has last = cc last

  -- Once the request is finished and `EOF` is in the queue of an open connection, the application is
  -- told of the end within as many calls of `receive` as there are chunks in the queue.
  pub run-ends :
      (events : List Event)
      → (run maxsize events start).body.canceled ≡ false
      → (run maxsize events start).body.finished ≡ true
      → has_eof (run maxsize events start).body.body_chunks ≡ true
      → (run maxsize
          (receive_all (run maxsize events start).body.body_chunks)
          (run maxsize events start)).ended
        ≡ true
  run-ends events h f has =
      let log = run maxsize events start in
      let i = run-IsIntact events start (λ _. start-IsIntact) h in
      let with_flags : Bool → Bool → Log = λ canceled finished. record log {
        body = record (log.body) { canceled = canceled; finished = finished };
      } in
      let fresh =
        drain log.body.body_chunks log.ended log.leaked log.arrived log.given has i.last in
      subst
        (λ canceled.
          (run maxsize (receive_all log.body.body_chunks)
            (with_flags canceled log.body.finished)).ended
          ≡ true)
        (sym h)
        (subst
          (λ finished.
            (run maxsize (receive_all log.body.body_chunks) (with_flags false finished)).ended
            ≡ true)
          (sym f) fresh)
