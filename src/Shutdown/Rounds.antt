-- ===== src/Shutdown/Rounds.antt =====
-- The signals of a worker and the rounds of its loop, one by one, in frontik/server.py.
use frontik.Prelude.{
  ℕ, ◌+◌, ◌≤◌, Bool, true, false, Option, none, some, List, [], ◌∷◌, ◌≡◌, refl, ◌∙◌, ◌↔◌, ◌⊎◌, inl,
  inr, arith, Bool-cases, leb,
}
use frontik.ServiceDiscovery.Registration.{RegisterOptions, deregister_service_and_close}
use frontik.Shutdown.{
  Discovery, worker, master, deregister, Server, deinit, deinitialize, ioloop_stop, start_deinit,
  Event, sigterm, timer, due, server_stop, end_deinit, handle,
}

-- The fields of the registration are set.
abbrev pub IsSetUp : Discovery → Type 0
IsSetUp worker = Unit
IsSetUp (master none) = ⊥
IsSetUp (master (some r)) = Unit

-- one of the rounds of the loop is at or behind the time
abbrev pub IsPassed : ℕ → List Event → Type 0
IsPassed t [] = ⊥
IsPassed t (sigterm now accepted ∷ events) = IsPassed t events
IsPassed t (timer now closes ∷ events) = (t ≤ now) ⊎ IsPassed t events

-- a signal is followed by a round that is at least the timeout behind it
abbrev pub Stops : ℕ → List Event → Type 0
Stops stop_timeout [] = ⊥
Stops stop_timeout (sigterm now accepted ∷ events) =
    IsPassed (now + stop_timeout) events ⊎ Stops stop_timeout events
Stops stop_timeout (timer now closes ∷ events) = Stops stop_timeout events

abbrev pub IsTold : List Event → Type 0
IsTold [] = ⊥
IsTold (sigterm now accepted ∷ events) = Unit
IsTold (timer now closes ∷ events) = IsTold events

abbrev pub AnyPassed : List ℕ → List Event → Type 0
AnyPassed [] events = ⊥
AnyPassed (t ∷ ts) events = IsPassed t events ⊎ AnyPassed ts events

pub AnyPassed-nil : (ts : List ℕ) → ¬ AnyPassed ts []
AnyPassed-nil [] h = h
AnyPassed-nil (t ∷ ts) (inl h) = h
AnyPassed-nil (t ∷ ts) (inr h) = AnyPassed-nil ts h

pub AnyPassed-sigterm :
    (ts : List ℕ) (now : ℕ) (accepted : Bool) (events : List Event)
    → AnyPassed ts (sigterm now accepted ∷ events) ↔ AnyPassed ts events
AnyPassed-sigterm [] now accepted events = ((λ h. h), λ h. h)
AnyPassed-sigterm (t ∷ ts) now accepted events =
    let (there, back) = AnyPassed-sigterm ts now accepted events in
    (
      (λ h. elim h [ inl x ↦ inl x | inr x ↦ inr (there x) ]),
      λ h. elim h [ inl x ↦ inl x | inr x ↦ inr (back x) ],
    )

pub AnyPassed-timer :
    (ts : List ℕ) (now : ℕ) (closes : Bool) (events : List Event)
    → AnyPassed ts (timer now closes ∷ events) ↔ ((due now ts ≡ true) ⊎ AnyPassed ts events)
unfolding due
AnyPassed-timer [] now closes events =
    ((λ h. elim h [ ]), λ h. elim h [ inl x ↦ ground arith | inr x ↦ x ])
AnyPassed-timer (t ∷ ts) now closes events =
    let (there, back) = AnyPassed-timer ts now closes events in
    (
      (λ h. elim h [
        | inl x ↦ elim x [ inl y ↦ inl (ground arith) | inr y ↦ inr (inl y) ]
        | inr x ↦ elim (there x) [ inl y ↦ inl (rw y (ground arith)) | inr y ↦ inr (inr y) ]
      ]),
      λ h. elim h [
        | inl x ↦ elim (Bool-cases (leb t now)) [
          | inl y ↦ inl (inl (ground arith))
          | inr y ↦ inr (back (inl (ground arith)))
        ]
        | inr x ↦ elim x [ inl y ↦ inl (inr y) | inr y ↦ inr (back (inr y)) ]
      ],
    )

start_deinit-listening :
    (wakes : ℕ) (d : Option Discovery) (s : Server)
    → (start_deinit wakes d s).listening ≡ s.listening
unfolding start_deinit ioloop_stop
start_deinit-listening wakes none s = refl
start_deinit-listening wakes (some d) s = refl

deinit-listening : (closes : Bool) (s : Server) → (deinit closes s).listening ≡ s.listening
unfolding deinit deinitialize
deinit-listening closes s = ground arith

module _ (options : RegisterOptions) (stop_timeout : ℕ) where
  pub deregister-IsSetUp :
      (accepted : Bool) (d : Discovery)
      → IsSetUp d
      → (d' : Discovery) × (deregister options accepted d ≡ some d') × IsSetUp d'
  unfolding deregister deregister_service_and_close
  deregister-IsSetUp accepted worker h = (worker, refl, tt)
  deregister-IsSetUp accepted (master none) h = elim h [ ]
  deregister-IsSetUp true (master (some r)) h = (_, refl, tt)
  deregister-IsSetUp false (master (some r)) h = (_, refl, tt)

  pub handle-sigterm :
      (now : ℕ) (accepted : Bool) (s : Server) (d : Discovery)
      → s.running ≡ true
      → deregister options accepted s.discovery ≡ some d
      → handle options stop_timeout (sigterm now accepted) s
        ≡ record s { listening = false; discovery = d; waiting = (now + stop_timeout) ∷ s.waiting }
  unfolding handle server_stop start_deinit
  handle-sigterm now accepted s d on h = rw (on, h)

  pub handle-early :
      (now : ℕ) (closes : Bool) (s : Server)
      → due now s.waiting ≡ false
      → handle options stop_timeout (timer now closes) s ≡ s
  unfolding handle end_deinit
  handle-early now closes s h = elim (Bool-cases s.running) [
    | inl on ↦ rw (on, h)
    | inr off ↦ rw off
  ]

  pub handle-due :
      (now : ℕ) (closes : Bool) (s : Server)
      → s.running ≡ true
      → due now s.waiting ≡ true
      → (handle options stop_timeout (timer now closes) s).running ≡ false
  unfolding handle end_deinit ioloop_stop
  handle-due now closes s on h = rw (on, h)

  pub handle-listening :
      (event : Event) (s : Server)
      → s.listening ≡ false
      → (handle options stop_timeout event s).listening ≡ false
  unfolding handle server_stop end_deinit ioloop_stop
  handle-listening (sigterm now accepted) s h = elim (Bool-cases s.running) [
    | inl on ↦ rw on (
        start_deinit-listening (now + stop_timeout) (deregister options accepted s.discovery)
          (record s { running = true; listening = false }))
    | inr off ↦ rw off h
  ]
  handle-listening (timer now closes) s h = elim (Bool-cases s.running) [
    | inl on ↦ elim (Bool-cases (due now s.waiting)) [
      | inl late ↦ rw (on, late) (deinit-listening closes (record s { running = true }) ∙ h)
      | inr early ↦ rw (on, early) h
    ]
    | inr off ↦ rw off h
  ]
