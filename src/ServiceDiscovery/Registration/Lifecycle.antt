-- ===== src/ServiceDiscovery/Registration/Lifecycle.antt =====
-- What Consul holds from the registration of frontik/service_discovery.py on, until its end.
use frontik.Prelude.{
  ℕ, String, Bool, true, false, Option, none, some, List, [], ◌∷◌, ◌≡◌, refl, ◌==◌, if◌then◌else◌,
  if_true, if_false, Dict, lookup, insert, eq_iff, eq_refl, arith, lookup-insert, ◌∙◌, ap,
}
use frontik.ServiceDiscovery.Registration.{
  RegisterOptions, Service, Registration, Result, ends, get_weight_or_default, sync_register,
  register_weight, update_register, register_service, deregister_service_and_close, remove, change,
  changes, start_cache,
}

-- The weight behind a change: a value that is no number, and one whose call Consul refuses, leaves it.
abbrev pub weight_after : ℕ → Option ℕ → Bool → ℕ
weight_after weight (some new) true = new
weight_after weight _ _ = weight

abbrev pub last_weight : ℕ → List (Option String × Bool) → ℕ
last_weight weight [] = weight
last_weight weight ((value, accepted) ∷ rest) =
    last_weight (weight_after weight (get_weight_or_default value) accepted) rest

lookup-remove :
    (k j : String) (d : Dict Service)
    → lookup j (remove k d) ≡ (if k == j then none else lookup j d)
unfolding lookup remove
lookup-remove k j [] = ground arith
lookup-remove k j ((i, v) ∷ d) =
    ground (arith, eq_iff i k, eq_iff i j, eq_iff k j, lookup-remove k j d)

module _ (options : RegisterOptions) where
  -- what is registered with a weight
  abbrev pub service_with : Registration → ℕ → Service
  service_with r weight = record {
    name = options.service_name;
    address = r.address;
    port = options.port;
    check = r.http_check;
    tags = options.consul_tags;
    weight = weight;
  }

  -- the registration with another content of Consul
  abbrev holds : Registration → Dict Service → Registration
  holds r consul = record r { running = true; consul = consul }

  change-some :
      (r : Registration) (weight : ℕ) (consul : Dict Service) (value : Option String)
      (accepted : Bool)
      → lookup r.service_id consul ≡ some (service_with r weight)
      → (consul' : Dict Service) × (change options value accepted (holds r consul)
          ≡ holds r consul')
        × (lookup r.service_id consul'
            ≡ some (service_with r (weight_after weight (get_weight_or_default value) accepted)))
        × ((k : String) → (r.service_id == k) ≡ false → lookup k consul' ≡ lookup k consul)
  unfolding change update_register
  change-some r weight consul value accepted held = by_weight (get_weight_or_default value) accepted
    where
      answer : Result Registration → Registration
      answer result = elim result [ ends r' ↦ r' | _ ↦ holds r consul ]

      by_weight :
          (new : Option ℕ) (accepted : Bool)
          → (consul' : Dict Service) × (answer
                (register_weight options new accepted (holds r consul))
              ≡ holds r consul')
            × (lookup r.service_id consul'
                ≡ some (service_with r (weight_after weight new accepted)))
            × ((k : String) → (r.service_id == k) ≡ false → lookup k consul' ≡ lookup k consul)
      by_weight none accepted = (consul, refl, held, λ k other. refl)
      by_weight (some new) false = (consul, refl, held, λ k other. refl)
      by_weight (some new) true = (
        insert r.service_id (service_with r new) consul,
        refl,
        ground (
          arith,
          lookup-insert r.service_id r.service_id (service_with r new) consul,
          eq_refl r.service_id,
        ),
        λ k other. lookup-insert r.service_id k (service_with r new) consul ∙ if_false _ _ _ other,
      )

  changes-some :
      (r : Registration) (cs : List (Option String × Bool)) (weight : ℕ) (consul : Dict Service)
      → lookup r.service_id consul ≡ some (service_with r weight)
      → (consul' : Dict Service) × (changes options cs (holds r consul) ≡ holds r consul')
        × (lookup r.service_id consul' ≡ some (service_with r (last_weight weight cs)))
        × ((k : String) → (r.service_id == k) ≡ false → lookup k consul' ≡ lookup k consul)
  unfolding changes
  changes-some r [] weight consul held = (consul, refl, held, λ k other. refl)
  changes-some r ((value, accepted) ∷ cs) weight consul held =
      let (middle, e, held', others) = change-some r weight consul value accepted held in
      let (consul', e', held'', others') =
        changes-some r cs (weight_after weight (get_weight_or_default value) accepted) middle
          held' in
      (consul', ap (changes options cs) e ∙ e', held'', λ k other. others' k other ∙ others k other)

  -- If the cache has no weight or a number, and Consul takes the registration, then Consul holds
  -- the service under its id, with the address, the port, the check and the tags of the start; and
  -- whatever changes of the weight come from then on, it holds it with the weight of the last
  -- change whose value is a number, or which removes the value, for the default weight, and that
  -- Consul takes, or else with the first. No other service is touched.
  pub register_service-changes :
      (value : Option String) (weight : ℕ) (r : Registration) (cs : List (Option String × Bool))
      → get_weight_or_default value ≡ some weight
      → (r' : Registration) × (register_service options value true (some r) ≡ ends (some r'))
        × (lookup r.service_id (changes options cs r').consul
            ≡ some (service_with r (last_weight weight cs)))
        × ((k : String)
            → (r.service_id == k) ≡ false
            → lookup k (changes options cs r').consul ≡ lookup k r.consul)
  unfolding register_service register_weight start_cache sync_register
  register_service-changes value weight r cs valid =
      let first = insert r.service_id (service_with r weight) r.consul in
      let (consul', e, held, others) = changes-some r cs weight first (
        ground (
          arith,
          lookup-insert r.service_id r.service_id (service_with r weight) r.consul,
          eq_refl r.service_id,
        )) in
      (
        holds r first,
        rw (valid, register_weight, start_cache) refl,
        ap (λ s. lookup r.service_id s.consul) e ∙ held,
        λ k other.
            ap (λ s. lookup k s.consul) e
            ∙ (others k other
                ∙ (lookup-insert r.service_id k (service_with r weight) r.consul
                    ∙ if_false _ _ _ other)),
      )

  changes_stopped :
      (cs : List (Option String × Bool)) (r : Registration)
      → r.running ≡ false
      → changes options cs r ≡ r
  unfolding changes change
  changes_stopped [] r h = refl
  changes_stopped ((value, accepted) ∷ cs) r h =
      ap (changes options cs) (if_false _ _ _ h) ∙ changes_stopped cs r h

  -- Once Consul has taken the end of the registration, the service is gone, and no change of the
  -- weight brings it back; no other service is touched.
  pub deregister_service_and_close-changes :
      (r : Registration) (cs : List (Option String × Bool))
      → (r' : Registration) × (deregister_service_and_close options true (some r) ≡ ends (some r'))
        × (lookup r.service_id (changes options cs r').consul ≡ none)
        × ((k : String)
            → (r.service_id == k) ≡ false
            → lookup k (changes options cs r').consul ≡ lookup k r.consul)
  unfolding deregister_service_and_close
  deregister_service_and_close-changes r cs =
      let r' : Registration = record r { running = false; consul = remove r.service_id r.consul } in
      let e = changes_stopped cs r' refl in
      (
        r',
        refl,
        ap (λ s. lookup r.service_id s.consul) e
            ∙ (lookup-remove r.service_id r.service_id r.consul
                ∙ if_true _ _ _ (eq_refl r.service_id)),
        λ k other.
            ap (λ s. lookup k s.consul) e
            ∙ (lookup-remove r.service_id k r.consul ∙ if_false _ _ _ other),
      )
