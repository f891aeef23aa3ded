-- ===== src/LogLevels/Applied.antt =====
-- Which levels hold behind an update, in frontik/loggers/logleveloverride.
use mathlib.Core.Path.{subst}
use frontik.Prelude.{
  ℕ, String, true, false, Option, none, some, List, [], ◌∷◌, ◌==◌, eqb_iff, eq_iff, if◌then◌else◌,
  if_true, if_false, Dict, lookup, insert, lookup-insert, ◌≡◌, refl, sym, ◌∙◌, ap, arith,
  Bool-cases, inl, inr,
}
use frontik.Loggers.{Loggers, get_logger}
use frontik.Loggers.Handlers.{get_logger-insert}
use frontik.LogLevels.{
  LogLevelOverride, Client, set_logger, override_handlers, has_level, apply_override,
  apply_overrides, has_override, reset_log_level, rollback, update_log_level,
}

-- the level of the last override of a logger
abbrev pub or_else : Option ℕ → Option ℕ → Option ℕ
or_else none old = old
or_else (some a) old = some a

abbrev pub last_override : String → List LogLevelOverride → Option ℕ
last_override name [] = none
last_override name (o ∷ overrides) =
    or_else (last_override name overrides)
      (if o.logger_name == name then some o.log_level else none)

has_override-last :
    (name : String) (overrides : List LogLevelOverride) (old : Option ℕ)
    → or_else (last_override name overrides) (if has_override name overrides then old else none)
      ≡ last_override name overrides
unfolding has_override
has_override-last name [] old = refl
has_override-last name (o ∷ overrides) old = ground (arith, has_override-last name overrides old)

-- the two cases of an override
apply_same :
    (o : LogLevelOverride) (c : Client)
    → has_level (lookup o.logger_name c.loggers_store) o.log_level ≡ true
    → apply_override o c ≡ c
unfolding apply_override
apply_same o c h = if_true _ _ _ h

apply_other :
    (o : LogLevelOverride) (c : Client)
    → has_level (lookup o.logger_name c.loggers_store) o.log_level ≡ false
    → apply_override o c ≡ record {
      loggers_store = insert o.logger_name o.log_level c.loggers_store;
      loggers = set_logger o.logger_name o.log_level c.loggers;
    }
unfolding apply_override
apply_other o c h = if_false _ _ _ h

apply_override-lookup :
    (name : String) (o : LogLevelOverride) (c : Client)
    → lookup name (apply_override o c).loggers_store
      ≡ (if o.logger_name == name then some o.log_level else lookup name c.loggers_store)
apply_override-lookup name o c =
    elim (Bool-cases (has_level (lookup o.logger_name c.loggers_store) o.log_level)) [
      | inl same ↦ ap (λ d. lookup name d.loggers_store) (apply_same o c same) ∙ stored same
      | inr other ↦
          ap (λ d. lookup name d.loggers_store) (apply_other o c other)
          ∙ lookup-insert o.logger_name name o.log_level c.loggers_store
    ]
  where
    stored :
        has_level (lookup o.logger_name c.loggers_store) o.log_level ≡ true
        → lookup name c.loggers_store
          ≡ (if o.logger_name == name then some o.log_level else lookup name c.loggers_store)
    stored same = elim (Bool-cases (o.logger_name == name)) [
      | inr other ↦ sym (if_false _ _ _ other)
      | inl here ↦
          ap (λ k. lookup k c.loggers_store) (sym ((eq_iff o.logger_name name).0 here))
          ∙ (level_found (lookup o.logger_name c.loggers_store) same ∙ sym (if_true _ _ _ here))
    ]
      where
        level_found : (l : Option ℕ) → has_level l o.log_level ≡ true → l ≡ some o.log_level
        level_found none h = cc h
        level_found (some n) h = ap some ((eqb_iff n o.log_level).0 h)

apply_overrides-lookup :
    (name : String) (overrides : List LogLevelOverride) (c : Client)
    → lookup name (apply_overrides overrides c).loggers_store
      ≡ or_else (last_override name overrides) (lookup name c.loggers_store)
unfolding apply_overrides
apply_overrides-lookup name [] c = refl
apply_overrides-lookup name (o ∷ overrides) c =
    apply_overrides-lookup name overrides (apply_override o c)
    ∙ ground (arith, apply_override-lookup name o c)

module _ (log_level : ℕ) where
  rollback-lookup :
      (name : String) (overrides : List LogLevelOverride) (store : Dict ℕ) (loggers : Loggers)
      → lookup name (rollback log_level overrides store loggers).loggers_store
        ≡ (if has_override name overrides then lookup name store else none)
  unfolding rollback lookup
  rollback-lookup name overrides [] loggers = ground arith
  rollback-lookup name overrides ((k, l) ∷ store) loggers =
      elim (Bool-cases (has_override k overrides)) [
        | inl kept ↦
            ap {A = Client} (λ d. lookup name d.loggers_store) (if_true _ _ _ kept)
            ∙ ground (arith, rollback-lookup name overrides store loggers, eq_iff k name)
        | inr gone ↦
            ap {A = Client} (λ d. lookup name d.loggers_store) (if_false _ _ _ gone)
            ∙ ground (arith, rollback-lookup name overrides store loggers, eq_iff k name)
      ]

  rollback-get_logger :
      (name : String) (overrides : List LogLevelOverride) (store : Dict ℕ) (loggers : Loggers)
      → has_override name overrides ≡ true
      → get_logger name (rollback log_level overrides store loggers).loggers
        ≡ get_logger name loggers
  unfolding rollback reset_log_level
  rollback-get_logger name overrides [] loggers h = refl
  rollback-get_logger name overrides ((k, l) ∷ store) loggers h =
      let rest = rollback-get_logger name overrides store loggers h in
      elim (Bool-cases (has_override k overrides)) [
        | inl kept ↦ ap {A = Client} (λ d. get_logger name d.loggers) (if_true _ _ _ kept) ∙ rest
        | inr gone ↦
            ap {A = Client} (λ d. get_logger name d.loggers) (if_false _ _ _ gone)
            ∙ (get_logger-insert k name _ _ ∙ (if_false _ _ _ (different k gone) ∙ rest))
      ]
    where
      different : (k : String) → has_override k overrides ≡ false → (k == name) ≡ false
      different k gone = ground (arith, eq_iff k name, h, gone)

  -- the level of each entry of the store is the one of its logger
  unfoldable pub IsApplied : Client → Type 0
  IsApplied c =
      (name : String) (level : ℕ)
      → lookup name c.loggers_store ≡ some level
      → (get_logger name c.loggers).level ≡ some level

  apply_override-IsApplied :
      (o : LogLevelOverride) (c : Client) → IsApplied c → IsApplied (apply_override o c)
  unfolding IsApplied set_logger
  apply_override-IsApplied o c applied =
      elim (Bool-cases (has_level (lookup o.logger_name c.loggers_store) o.log_level)) [
        | inl same ↦ subst IsApplied (sym (apply_same o c same)) applied
        | inr other ↦ subst IsApplied (sym (apply_other o c other)) (λ name level found.
            let at = sym (lookup-insert o.logger_name name o.log_level c.loggers_store) ∙ found in
            let now =
              get_logger-insert o.logger_name name
                (record (get_logger o.logger_name c.loggers) {
                  level = some o.log_level;
                  handlers =
                      override_handlers o.log_level (get_logger o.logger_name c.loggers).handlers
                        (get_logger "root" c.loggers).handlers;
                })
                c.loggers in
            elim (Bool-cases (o.logger_name == name)) [
              | inl here ↦
                  ap (λ l. l.level) (now ∙ if_true _ _ _ here) ∙ (sym (if_true _ _ _ here) ∙ at)
              | inr elsewhere ↦
                  ap (λ l. l.level) (now ∙ if_false _ _ _ elsewhere)
                  ∙ applied name level (sym (if_false _ _ _ elsewhere) ∙ at)
            ])
      ]

  apply_overrides-IsApplied :
      (overrides : List LogLevelOverride) (c : Client)
      → IsApplied c
      → IsApplied (apply_overrides overrides c)
  unfolding apply_overrides
  apply_overrides-IsApplied [] c applied = applied
  apply_overrides-IsApplied (o ∷ overrides) c applied =
      apply_overrides-IsApplied overrides (apply_override o c)
        (apply_override-IsApplied o c applied)

  rollback-IsApplied :
      (overrides : List LogLevelOverride) (c : Client)
      → IsApplied c
      → IsApplied (rollback log_level overrides c.loggers_store c.loggers)
  unfolding IsApplied
  rollback-IsApplied overrides c applied name level found =
      let at = sym (rollback-lookup name overrides c.loggers_store c.loggers) ∙ found in
      elim (Bool-cases (has_override name overrides)) [
        | inl here ↦
            ap (λ l. l.level) (rollback-get_logger name overrides c.loggers_store c.loggers here)
            ∙ applied name level (sym (if_true _ _ _ here) ∙ at)
        | inr gone ↦ cc (sym (if_false _ _ _ gone) ∙ at)
      ]

  -- Behind an update the store holds the overrides that were loaded and nothing else, for a logger
  -- that is named more than once the last of them; and if before the update each logger in the store
  -- had its level, then behind it each logger that is overridden has the level of its override.
  pub update_log_level-IsApplied :
      (overrides : List LogLevelOverride) (c : Client)
      → IsApplied c
      → ((name : String)
          → lookup name (update_log_level log_level overrides c).loggers_store
            ≡ last_override name overrides)
        × ((name : String) (level : ℕ)
            → last_override name overrides ≡ some level
            → (get_logger name (update_log_level log_level overrides c).loggers).level ≡ some level)
        × IsApplied (update_log_level log_level overrides c)
  unfolding update_log_level IsApplied
  update_log_level-IsApplied overrides c applied =
      let kept = rollback log_level overrides c.loggers_store c.loggers in
      let done =
        apply_overrides-IsApplied overrides kept (rollback-IsApplied overrides c applied) in
      let stored : (name : String)
          → lookup name (apply_overrides overrides kept).loggers_store
            ≡ last_override name overrides =
        λ name.
          apply_overrides-lookup name overrides kept
          ∙ (ap (or_else (last_override name overrides))
                (rollback-lookup name overrides c.loggers_store c.loggers)
              ∙ has_override-last name overrides (lookup name c.loggers_store)) in
      (stored, (λ name level e. done name level (stored name ∙ e)), done)
