-- ===== src/Loggers/Handlers.antt =====
-- Where the lines of a logger go, in frontik/loggers/__init__.py.
use frontik.Prelude.{
  ℕ, String, Bool, true, false, Option, none, some, List, [], ◌∷◌, ◌++◌, ◌+++◌, map, ◌==◌, eq_iff,
  eq_refl, if◌then◌else◌, lookup, insert, lookup-insert, ◌≡◌, refl, sym, ◌∙◌, ap, ◌⊎◌, inl, inr,
  Bool-cases, if_true, if_false, upper,
}
use frontik.Loggers.Targets.{AreNew, targets_for, new_handlers-AreNew}
use frontik.Loggers.{
  Handler, Formatter, Logger, Loggers, Host, has_log_dir, fails, LogOptions, found_or_new,
  get_logger, filename_of, get_logger_filename, new_handlers, at_level, with_handlers,
  debug_log_handler, log_extension, finish_logger, bootstrap_logger, set_level, suppress, and_then,
  with_level, core_loggers, bootstrap_core_logging,
}

-- the root logger has a file name
abbrev pub IsRooted : Loggers → Type 0
IsRooted loggers = (appender : String) × ((get_logger "root" loggers).appender ≡ some appender)

pub get_logger-insert :
    (name j : String) (logger : Logger) (loggers : Loggers)
    → get_logger j (insert name logger loggers)
      ≡ (if name == j then logger else get_logger j loggers)
unfolding get_logger
get_logger-insert name j logger loggers =
    ap found_or_new (lookup-insert name j logger loggers) ∙ branch (name == j)
  where
    branch :
        (b : Bool)
        → found_or_new (if b then some logger else lookup j loggers)
          ≡ (if b then logger else found_or_new (lookup j loggers))
    branch true = refl
    branch false = refl

get_logger-insert_here :
    (name : String) (logger : Logger) (loggers : Loggers)
    → get_logger name (insert name logger loggers) ≡ logger
get_logger-insert_here name logger loggers =
    get_logger-insert name name logger loggers ∙ if_true _ _ _ (eq_refl name)

-- The name of a file is found for a logger that has one, if the root logger has one too.
filename_found :
    (name appender : String) (loggers : Loggers)
    → (get_logger name loggers).appender ≡ some appender
    → IsRooted loggers
    → get_logger_filename name loggers ≡ some appender
unfolding get_logger_filename filename_of
filename_found name appender loggers named (root, rooted) =
    ap (λ a. filename_of a (get_logger "root" loggers).appender) named
    ∙ ap (filename_of (some appender)) rooted

insert-IsRooted :
    (name appender : String) (logger : Logger) (loggers : Loggers)
    → logger.appender ≡ some appender
    → (name ≡ "root") ⊎ IsRooted loggers
    → IsRooted (insert name logger loggers)
insert-IsRooted name appender logger loggers named rooted = elim (Bool-cases (name == "root")) [
  | inl same ↦ (appender, ap (λ l. l.appender) (at_root ∙ if_true _ _ _ same) ∙ named)
  | inr other ↦ elim rooted [
    | inl root ↦ cc (sym other ∙ (eq_iff name "root").1 root)
    | inr (r, h) ↦ (r, ap (λ l. l.appender) (at_root ∙ if_false _ _ _ other) ∙ h)
  ]
]
  where
    at_root :
        get_logger "root" (insert name logger loggers)
        ≡ (if name == "root" then logger else get_logger "root" loggers)
    at_root = get_logger-insert name "root" logger loggers

module _ (options : LogOptions) where
  -- what `bootstrap_logger` leaves
  pub record IsBootstrapped (host : Host) (name logger_name : String) (level : ℕ) (use_json : Bool)
      (formatter : Option Formatter) (before after : Loggers) : Type 0 where
    pub appender :
        (get_logger name after).appender ≡ some (logger_name +++ log_extension options use_json)
    pub new : List Handler
    pub handlers :
        (get_logger name after).handlers
        ≡ (get_logger name before).handlers ++ (new ++ debug_log_handler options ∷ [])
    pub are_new :
        AreNew options level use_json formatter
          (targets_for options host (logger_name +++ log_extension options use_json))
          new
    pub propagate : (get_logger name after).propagate ≡ false
    pub others : (j : String) → (name == j) ≡ false → get_logger j after ≡ get_logger j before

  -- the log file can be opened if there is a directory for it, and the facility is known if syslog is
  -- asked for
  abbrev pub CanStart : Host → Type 0
  CanStart host =
      (has_log_dir options ≡ true → host.file_opens ≡ true)
      × (options.syslog ≡ true → host.knows_facility ≡ true)

  starts : (host : Host) → CanStart host → fails options host ≡ false
  starts host (opens, knows) = elim (Bool-cases (has_log_dir options)) [
    | inl a ↦ elim (Bool-cases options.syslog) [
      | inl b ↦ rw (a, b, opens a, knows b) refl
      | inr b ↦ rw (a, b, opens a) refl
    ]
    | inr a ↦ elim (Bool-cases options.syslog) [
      | inl b ↦ rw (a, b, knows b) refl
      | inr b ↦ rw (a, b) refl
    ]
  ]

  pub bootstrap_logger-IsBootstrapped :
      (host : Host) (name logger_name : String) (level : ℕ) (use_json : Bool)
      (formatter : Option Formatter) (loggers : Loggers)
      → (name ≡ "root") ⊎ IsRooted loggers
      → CanStart host
      → (loggers' : Loggers) × (bootstrap_logger options host name logger_name level use_json
            formatter loggers
          ≡ some loggers')
        × IsBootstrapped host name logger_name level use_json formatter loggers loggers'
  unfolding bootstrap_logger finish_logger with_handlers
  bootstrap_logger-IsBootstrapped host name logger_name level use_json formatter loggers rooted
        can =
      let appender = logger_name +++ log_extension options use_json in
      let logger : Logger = record (get_logger name loggers) { appender = some appender } in
      let middle = insert name logger loggers in
      let here = get_logger-insert_here name logger loggers in
      let filename : get_logger_filename name middle ≡ some appender =
        filename_found name appender middle (ap (λ l. l.appender) here)
          (insert-IsRooted name appender logger loggers refl rooted) in
      let handlers = new_handlers options host appender use_json formatter in
      let last = with_handlers options handlers level (get_logger name middle) in
      let at_last = get_logger-insert_here name last middle in
      (
        insert name last middle,
        ap (λ f. finish_logger options f host name level use_json formatter middle) filename
            ∙ if_false _ _ _ (starts host can),
        record {
          appender = ap (λ l. l.appender) at_last ∙ ap (λ l. l.appender) here;
          new = map (at_level options level) handlers;
          are_new = new_handlers-AreNew options level appender use_json formatter host;
          handlers =
              ap (λ l. l.handlers) at_last
              ∙ ap
                  (λ l.
                    l.handlers
                    ++ (map (at_level options level) handlers ++ debug_log_handler options ∷ []))
                  here;
          propagate = ap (λ l. l.propagate) at_last;
          others = λ j other.
              get_logger-insert name j last middle
              ∙ (if_false _ _ _ other
                  ∙ (get_logger-insert name j logger loggers ∙ if_false _ _ _ other));
        },
      )

  set_level-IsRooted :
      (name : String) (level : ℕ) (loggers : Loggers)
      → IsRooted loggers
      → IsRooted (set_level options name level loggers)
  unfolding set_level
  set_level-IsRooted name level loggers (root, h) =
      let logger : Logger = record (get_logger name loggers) { level = some level } in
      elim (Bool-cases (name == "root")) [
        | inl same ↦
            let named : (get_logger name loggers).appender ≡ some root =
              ap (λ n. (get_logger n loggers).appender) ((eq_iff name "root").0 same) ∙ h in
            insert-IsRooted name root logger loggers named (inr (root, h))
        | inr other ↦ (
          root,
          ap (λ l. l.appender) (get_logger-insert name "root" logger loggers ∙ if_false _ _ _ other)
              ∙ h,
        )
      ]

  suppress-IsRooted :
      (names : List String) (loggers : Loggers)
      → IsRooted loggers
      → IsRooted (suppress options names loggers)
  unfolding suppress
  suppress-IsRooted [] loggers h = h
  suppress-IsRooted (name ∷ names) loggers h =
      suppress-IsRooted names _ (set_level-IsRooted name 30 loggers h)

  -- a logger that is set up keeps the name of the file of the root logger
  kept-IsRooted :
      (host : Host) (name logger_name : String) (level : ℕ) (use_json : Bool) (before : Loggers)
      → (name == "root") ≡ false
      → IsRooted before
      → CanStart host
      → (after : Loggers) × (bootstrap_logger options host name logger_name level use_json none
            before
          ≡ some after)
        × IsRooted after
  kept-IsRooted host name logger_name level use_json before other (root, h) can =
      let (after, e, b) =
        bootstrap_logger-IsBootstrapped host name logger_name level use_json none before
          (inr (root, h)) can in
      (after, e, (root, ap (λ l. l.appender) (b.others "root" other) ∙ h))

  requests-IsRooted :
      (host : Host) (level : ℕ) (use_json : Bool) (before : Loggers)
      → IsRooted before
      → CanStart host
      → (after : Loggers) × ((if use_json
            then bootstrap_logger options host "requests" "requests" level true none before
            else some before)
          ≡ some after)
        × IsRooted after
  requests-IsRooted host level true before h can =
      kept-IsRooted host "requests" "requests" level true before refl h can
  requests-IsRooted host level false before h can = (before, refl, h)

  and_then-some :
      (o : Option Loggers) (f : Loggers → Option Loggers) {a r : Loggers}
      → o ≡ some a
      → f a ≡ some r
      → and_then options o f ≡ some r
  and_then-some o f e h = ap (λ p. and_then options p f) e ∙ h

  -- The set-up of the core logging ends whenever the level has a name that `logging` knows, the log
  -- file can be opened and the facility is known where they are needed, whatever loggers there are
  -- before, and leaves the root logger with a file
  -- name, which the set-up of any other logger needs.
  bootstrap_core_logging-IsRooted :
      (host : Host) (level_of : String → Option ℕ) (log_level : String) (level : ℕ)
      (use_json : Bool) (suppressed : List String) (before : Loggers)
      → level_of (upper log_level) ≡ some level
      → CanStart host
      → (after : Loggers) × (bootstrap_core_logging options host level_of log_level use_json
            suppressed before
          ≡ some after)
        × IsRooted after
  unfolding bootstrap_core_logging core_loggers
  bootstrap_core_logging-IsRooted host level_of log_level level use_json suppressed before known
        can =
      let (l, e, b) =
        bootstrap_logger-IsBootstrapped host "root" "service" level use_json none
          (set_level options "root" 0 before) (inl refl) can in
      let (l', e', h') =
        kept-IsRooted host "server" "server" level use_json l refl (_, b.appender) can in
      let (l'', e'', h'') = requests-IsRooted host level use_json l' h' can in
      (
        suppress options suppressed l'',
        ap (λ o. with_level options o (core_loggers options host use_json suppressed before)) known
            ∙ and_then-some _ _ e (and_then-some _ _ e' (and_then-some _ _ e'' refl)),
        suppress-IsRooted suppressed l'' h'',
      )
