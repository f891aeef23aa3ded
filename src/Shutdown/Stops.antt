-- ===== src/Shutdown/Stops.antt =====
-- When a worker stops, in frontik/server.py.
use mathlib.Core.Path.{subst}
use frontik.Prelude.{
  ℕ, ◌+◌, true, false, List, [], ◌∷◌, ◌≡◌, refl, sym, ◌∙◌, ap, ◌↔◌, ◌⊎◌, inl, inr, Bool-cases,
}
use frontik.ServiceDiscovery.Registration.{RegisterOptions}
use frontik.Shutdown.{Server, Event, sigterm, timer, due, handle, run}
use frontik.Shutdown.Rounds.{
  IsSetUp, Stops, IsTold, AnyPassed, AnyPassed-nil, AnyPassed-sigterm, AnyPassed-timer,
  deregister-IsSetUp, handle-sigterm, handle-early, handle-due, handle-listening,
}

module _ (options : RegisterOptions) (stop_timeout : ℕ) where
  run-stopped :
      (events : List Event) (s : Server)
      → s.running ≡ false
      → (run options stop_timeout events s).running ≡ false
  unfolding run handle
  run-stopped [] s h = h
  run-stopped (sigterm now accepted ∷ events) s h =
      rw h (run-stopped events (record s { running = false }) refl)
  run-stopped (timer now closes ∷ events) s h =
      rw h (run-stopped events (record s { running = false }) refl)

  run_cons :
      (event : Event) (events : List Event) (s t : Server)
      → handle options stop_timeout event s ≡ t
      → (run options stop_timeout (event ∷ events) s).running
        ≡ (run options stop_timeout events t).running
  unfolding run
  run_cons event events s t h = ap (λ x. (run options stop_timeout events x).running) h

  run-running :
      (events : List Event) (s : Server)
      → s.running ≡ true
      → IsSetUp s.discovery
      → ((run options stop_timeout events s).running ≡ false)
        ↔ (AnyPassed s.waiting events ⊎ Stops stop_timeout events)
  run-running [] s on set = (
    (unfold run in λ h. cc (on, h)),
    λ h. elim h [ inl x ↦ elim (AnyPassed-nil s.waiting x) [ ] | inr x ↦ elim x [ ] ],
  )
  run-running (sigterm now accepted ∷ events) s on set =
      let (d, h, set') = deregister-IsSetUp options stop_timeout accepted s.discovery set in
      let t : Server = record s {
        listening = false;
        discovery = d;
        waiting = (now + stop_timeout) ∷ s.waiting;
      } in
      let same =
        run_cons (sigterm now accepted) events s t
          (handle-sigterm options stop_timeout now accepted s d on h) in
      let (there, back) = run-running events t on set' in
      let (skip, unskip) = AnyPassed-sigterm s.waiting now accepted events in
      (
        (λ off. elim (there (sym same ∙ off)) [
          | inl x ↦ elim x [ inl y ↦ inr (inl y) | inr y ↦ inl (unskip y) ]
          | inr x ↦ inr (inr x)
        ]),
        λ e.
            same
            ∙ back (elim e [
              | inl x ↦ inl (inr (skip x))
              | inr x ↦ elim x [ inl y ↦ inl (inl y) | inr y ↦ inr y ]
            ]),
      )
  run-running (timer now closes ∷ events) s on set =
      let (there, back) = run-running events s on set in
      let (split, join) = AnyPassed-timer s.waiting now closes events in
      elim (Bool-cases (due now s.waiting)) [
        | inl h ↦ (
          (λ off. inl (join (inl h))),
          λ e.
              run_cons (timer now closes) events s _ refl
              ∙ run-stopped events _ (handle-due options stop_timeout now closes s on h),
        )
        | inr h ↦
            let same =
              run_cons (timer now closes) events s s
                (handle-early options stop_timeout now closes s h) in
            (
              (λ off. elim (there (sym same ∙ off)) [ inl x ↦ inl (join (inr x)) | inr x ↦ inr x ]),
              λ e.
                  same
                  ∙ back (elim e [
                    | inl x ↦ elim (split x) [ inl y ↦ cc (y, h) | inr y ↦ inl y ]
                    | inr x ↦ inr x
                  ]),
            )
      ]

  run-listening :
      (events : List Event) (s : Server)
      → s.listening ≡ false
      → (run options stop_timeout events s).listening ≡ false
  unfolding run
  run-listening [] s h = h
  run-listening (event ∷ events) s h =
      run-listening events (handle options stop_timeout event s)
        (handle-listening options stop_timeout event s h)

  run-closed :
      (events : List Event) (s : Server)
      → s.running ≡ true
      → IsSetUp s.discovery
      → s.waiting ≡ []
      → IsTold events
      → (run options stop_timeout events s).listening ≡ false
  unfolding run
  run-closed [] s on set idle told = elim told [ ]
  run-closed (sigterm now accepted ∷ events) s on set idle told =
      let (d, h, set') = deregister-IsSetUp options stop_timeout accepted s.discovery set in
      run-listening events (handle options stop_timeout (sigterm now accepted) s)
        (ap (λ t. t.listening) (handle-sigterm options stop_timeout now accepted s d on h))
  run-closed (timer now closes ∷ events) s on set idle told =
      ap (λ t. (run options stop_timeout events t).listening)
        (handle-early options stop_timeout now closes s (ap (due now) idle ∙ unfold due in refl))
      ∙ run-closed events s on set idle told

  -- A worker that runs, with no task of a stop, whose deregistration does not raise: behind any
  -- signals and rounds of the loop its loop has stopped if and only if some signal is followed by a
  -- round at least `stop_timeout` later, whether or not Consul accepts, the client closes and the
  -- integrations end; and once there was a signal, it takes no new connections.
  pub run-Stops :
      (events : List Event) (s : Server)
      → s.running ≡ true
      → IsSetUp s.discovery
      → s.waiting ≡ []
      → (((run options stop_timeout events s).running ≡ false) ↔ Stops stop_timeout events)
        × (IsTold events → (run options stop_timeout events s).listening ≡ false)
  run-Stops events s on set idle =
      let (there, back) = run-running events s on set in
      (
        (
          (λ off. elim (there off) [
            | inl x ↦ elim (subst (λ ts. AnyPassed ts events) idle x) [ ]
            | inr x ↦ x
          ]),
          λ x. back (inr x),
        ),
        λ told. run-closed events s on set idle told,
      )
