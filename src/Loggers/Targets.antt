-- ===== src/Loggers/Targets.antt =====
-- Which handlers a logger is given in frontik/loggers/__init__.py.
use frontik.Prelude.{
  ℕ, String, Bool, true, false, ◌&&◌, Option, none, some, List, [], ◌∷◌, ◌++◌, ◌+++◌, map, ◌≡◌,
  refl, ◌∙◌, ap, ◌⊎◌, inl, inr, All, if◌then◌else◌, is_empty, Bool-cases,
}
use frontik.Loggers.{
  Formatter, json, text, stderr, Target, file, stream, syslog, Handler, LogOptions, Host, configure,
  configure_file, configure_stderr, configure_syslog, new_handlers, at_level,
}

-- A handler writes with the formatter that is given, or else as JSON, or else as text with the fields
-- of the context.
abbrev pub HasFormat : Bool → Option Formatter → Handler → Type 0
HasFormat use_json (some formatter) h = h.formatter ≡ some formatter
HasFormat true none h = h.formatter ≡ some json
HasFormat false none h =
    (h.has_context_filter ≡ true) × ((h.formatter ≡ some text) ⊎ (h.formatter ≡ some stderr))

abbrev pub file_targets : Option String → String → List Target
file_targets none filename = []
file_targets (some dir) filename =
    if is_empty dir then [] else file (dir +++ ("/" +++ filename)) ∷ []

module _ (options : LogOptions) where
  -- the log file, if there is a directory, the error stream, if it is asked for, and syslog, if it is
  -- asked for and can be reached
  abbrev pub targets_for : Host → String → List Target
  targets_for host filename =
      file_targets options.log_dir filename
      ++ ((if options.stderr_log then stream ∷ [] else [])
          ++ (if options.syslog && host.syslog_opens
              then syslog (options.syslog_tag +++ ("/" +++ (filename +++ "/: "))) ∷ []
              else []))

  module _ (level : ℕ) (use_json : Bool) (formatter : Option Formatter) where
    abbrev pub IsNew : Handler → Type 0
    IsNew h = (h.level ≡ some level) × HasFormat use_json formatter h

    -- handlers with these targets, each at the level and with the format
    abbrev pub AreNew : List Target → List Handler → Type 0
    AreNew targets handlers = (map (λ h. h.target) handlers ≡ targets) × All IsNew handlers

    AreNew-append :
        (a b : List Handler) (s t : List Target)
        → AreNew s (map (at_level options level) a)
        → AreNew t (map (at_level options level) b)
        → AreNew (s ++ t) (map (at_level options level) (a ++ b))
    AreNew-append [] b s t (e, all) (e', all') = (e' ∙ ap (λ x. x ++ t) e, all')
    AreNew-append (h ∷ a) b s t (e, (new, all)) (e', all') =
        let (e'', all'') = AreNew-append a b _ t (refl, all) (e', all') in
        (ap (λ x. h.target ∷ x) e'' ∙ ap (λ x. x ++ t) e, (new, all''))

  configure-AreNew :
      (level : ℕ) (target : Target) (default : Formatter) (use_json : Bool)
      (formatter : Option Formatter)
      → (default ≡ text) ⊎ (default ≡ stderr)
      → AreNew level use_json formatter
          (target ∷ [])
          (map (at_level options level) (configure target default use_json formatter ∷ []))
  unfolding configure
  configure-AreNew level target default use_json (some f) plain = (refl, ((refl, refl), tt))
  configure-AreNew level target default true none plain = (refl, ((refl, refl), tt))
  configure-AreNew level target default false none (inl e) =
      (refl, ((refl, (refl, inl (ap some e))), tt))
  configure-AreNew level target default false none (inr e) =
      (refl, ((refl, (refl, inr (ap some e))), tt))

  module _ (level : ℕ) (filename : String) (use_json : Bool) (formatter : Option Formatter) where
    file-AreNew :
        (dir : Option String)
        → AreNew level use_json formatter
            (file_targets dir filename)
            (map (at_level options level) (configure_file options dir filename use_json formatter))
    unfolding configure_file
    file-AreNew none = (refl, tt)
    file-AreNew (some dir) = elim (Bool-cases (is_empty dir)) [
      | inl e ↦ rw e (refl, tt)
      | inr e ↦ rw e (
          configure-AreNew level (file (dir +++ ("/" +++ filename))) text use_json formatter
            (inl refl))
    ]

    stderr-AreNew :
        (asked : Bool)
        → AreNew level use_json formatter
            (if asked then stream ∷ [] else [])
            (map (at_level options level) (configure_stderr options asked use_json formatter))
    unfolding configure_stderr
    stderr-AreNew true = configure-AreNew level stream stderr use_json formatter (inr refl)
    stderr-AreNew false = (refl, tt)

    syslog-AreNew :
        (asked opens : Bool)
        → AreNew level use_json formatter
            (if asked && opens
              then syslog (options.syslog_tag +++ ("/" +++ (filename +++ "/: "))) ∷ []
              else [])
            (map
              (at_level options level)
              (configure_syslog options asked opens filename use_json formatter))
    unfolding configure_syslog
    syslog-AreNew true true = configure-AreNew level _ text use_json formatter (inl refl)
    syslog-AreNew true false = (refl, tt)
    syslog-AreNew false opens = (refl, tt)

    pub new_handlers-AreNew :
        (host : Host)
        → AreNew level use_json formatter
            (targets_for host filename)
            (map (at_level options level) (new_handlers options host filename use_json formatter))
    unfolding new_handlers
    new_handlers-AreNew host =
        AreNew-append level use_json formatter _ _ _ _ (file-AreNew options.log_dir) (
          AreNew-append level use_json formatter _ _ _ _ (stderr-AreNew options.stderr_log)
            (syslog-AreNew options.syslog host.syslog_opens))
