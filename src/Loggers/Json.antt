-- ===== src/Loggers/Json.antt =====
-- frontik/loggers/__init__.py: `JSONFormatter`, up to the encoding of its fields.
use frontik.Prelude.{
  ℕ, String, Bool, true, false, Option, none, some, [], ◌∷◌, ◌+++◌, if◌then◌else◌, Dict, insert,
  is_empty, ends_with_char, ◌≡◌, refl, ap, arith,
}

pub data Scalar : Type 0 where
  number : ℕ → Scalar
  text : String → Scalar

pub data Value : Type 0 where
  string : String → Value
  null : Value
  fields : Dict Scalar → Value
  -- a value of `custom_json`, by its encoding
  custom : String → Value

-- a log record, with the message that `getMessage` gives, and the texts that `formatException` and
-- `formatStack` give of `exc_info` and `stack_info`
pub record LogRecord : Type 0 where
  pub name : String
  pub levelname : String
  pub msg : Option String
  pub exc_info : Option String
  pub exc_text : Option String
  pub stack_info : Option String
  pub custom_json : Option (Dict Value)

-- what the context of the request and of the process hold
pub record Context : Type 0 where
  pub pid : ℕ
  pub role : Option String
  pub handler_name : Option String
  pub request_id : Option String

-- `if text: mdc[key] = text`
pub put_text : String → Option String → Dict Scalar → Dict Scalar
put_text key none d = d
put_text key (some value) d = if is_empty value then d else insert key (text value) d

pub put_role : Option String → Dict Scalar → Dict Scalar
put_role none d = d
put_role (some role) d = insert "role" (text role) d

unfoldable pub get_mdc : Context → Dict Scalar
unfolding put_text put_role
get_mdc context = put_text "rid" context.request_id (
    put_text "controller" context.handler_name
      (put_role context.role (("thread", number context.pid) ∷ [])))

-- a text that may be missing, and is false if it is empty
abbrev pub non_empty : Option String → Option String
non_empty none = none
non_empty (some value) = if is_empty value then none else some value

-- `record.exc_text`, which is set if there is an exception and no text of it
pub exc_text_of : Option String → Option String → Option String
exc_text_of none exc_text = exc_text
exc_text_of (some formatted) none = some formatted
exc_text_of (some formatted) (some exc_text) =
    if is_empty exc_text then some formatted else some exc_text

-- one of the parts of the stack trace, on a new line
pub add_part : Option String → String → String
add_part none trace = trace
add_part (some part) trace = (if ends_with_char b'\n' trace then trace else trace +++ "\n") +++ part

-- `format_stack_trace`, and the record that it leaves
unfoldable pub format_stack_trace : LogRecord → String × LogRecord
unfolding exc_text_of add_part
format_stack_trace r =
    let exc_text = exc_text_of r.exc_info r.exc_text in
    (
      add_part (non_empty r.stack_info) (add_part (non_empty exc_text) ""),
      record r { exc_text = exc_text },
    )

-- `dict.update`
pub update_fields : Dict Value → Dict Value → Dict Value
update_fields d [] = d
update_fields d ((k, v) ∷ e) = update_fields (insert k v d) e

unfoldable pub put_appender : Bool → String → Dict Value → Dict Value
put_appender false appender d = d
put_appender true appender d = insert "appender" (string appender) d

abbrev message_value : Option String → Value
message_value none = null
message_value (some message) = string message

pub put_trace : String → Dict Value → Dict Value
put_trace trace d = if is_empty trace then d else insert "exception" (string trace) d

unfoldable pub put_standard : Context → LogRecord → String → Dict Value → Dict Value
unfolding put_trace get_mdc
put_standard context r trace d = put_trace trace (
    insert "msg" (message_value r.msg) (
      insert "mdc" (fields (get_mdc context))
        (insert "logger" (string r.name) (insert "lvl" (string r.levelname) d))))

-- the branch on `custom_json`, where an empty dictionary counts as none
pub put_message : Option (Dict Value) → Context → LogRecord → String → Dict Value → Dict Value
unfolding update_fields put_standard
put_message none context r trace d = put_standard context r trace d
put_message (some []) context r trace d = put_standard context r trace d
put_message (some (x ∷ custom_json)) context r trace d = update_fields d (x ∷ custom_json)

-- `JSONFormatter.format` up to `json_encode`, with the timestamp and the appender of the logger
unfoldable pub format :
    (write_appender : Bool)
    → (timestamp appender : String) → Context
    → LogRecord
    → Dict Value × LogRecord
unfolding format_stack_trace put_appender put_message
format write_appender timestamp appender context r =
    let (trace, r') = format_stack_trace r in
    (
      put_message r'.custom_json context r' trace
          (put_appender write_appender appender (("ts", string timestamp) ∷ [])),
      r',
    )

exc_text_of_twice :
    (exc_info exc_text : Option String)
    → exc_text_of exc_info (exc_text_of exc_info exc_text) ≡ exc_text_of exc_info exc_text
unfolding exc_text_of
exc_text_of_twice none exc_text = refl
exc_text_of_twice (some formatted) none = ground arith
exc_text_of_twice (some formatted) (some exc_text) = ground arith

-- A record is formatted in the same way again by the next handler, though the first one changes it:
-- the text of the exception is kept, and everything else is as it was.
format_twice :
    (write_appender : Bool) (timestamp appender : String) (context : Context) (r : LogRecord)
    → format write_appender timestamp appender context
        (format write_appender timestamp appender context r).1
      ≡ format write_appender timestamp appender context r
unfolding format format_stack_trace
format_twice write_appender timestamp appender context r =
    let e = exc_text_of_twice r.exc_info r.exc_text in
    ap
      (λ exc_text. (
        put_message r.custom_json context (record r { exc_text = exc_text })
            (add_part (non_empty r.stack_info) (add_part (non_empty exc_text) ""))
            (put_appender write_appender appender (("ts", string timestamp) ∷ [])),
        record r { exc_text = exc_text },
      ))
      e
