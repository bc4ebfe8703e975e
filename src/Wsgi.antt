-- ===== src/Wsgi.antt =====
-- src/main/wsgi.py and src/main/patches.py: what is patched before the application is loaded, and
-- the log of requests. gevent, uwsgi, django and wsgiref stand outside.
pub mod Order
pub mod Log
use Prim.Native.String.{[], ◌∷◌}
use mathlib.Core.List.{List, [], ◌∷◌, ◌++◌}
use text.Mathlib.Text.{◌==◌ as str_eq}
use sta_generation_service.Prelude.{
  ℕ, String, Bool, true, false, ◌&&◌, ◌||◌, Option, none, some, code, ◌==◌, if◌then◌else◌,
}
use sta_generation_service.Dict.{Dict, lookup, insert}
use sta_generation_service.Text.{◌<>◌, lower}
use sta_generation_service.Text.Number.{show}

-- os.environ
abbrev pub Environ : Type 0
Environ = Dict String

-- os.environ.get(name, "")
abbrev value_of : Option String → String
value_of none = ""
value_of (some value) = value

abbrev member : String → List String → Bool
member s [] = false
member s (t ∷ ts) = str_eq s t || member s ts

unfoldable pub is_true : Environ → String → Bool
unfolding lookup lower
is_true environ name =
    member (lower (value_of (lookup name environ))) ("true" ∷ "on" ∷ "ok" ∷ "y" ∷ "yes" ∷ "1" ∷ [])

-- The calls that leave a trace.
pub data BootCall : Type 0 where
  patch_all : BootCall
  patch_psycopg : BootCall
  get_wsgi_application : (settings_module : String) → BootCall
  log_in_uwsgi : BootCall
  log_in_runserver : BootCall

-- Which of the sockets that `patch_gevent` looks at are gevent's after patch_all.
pub record Sockets : Type 0 where
  pub socket : Bool
  pub requests : Bool
  pub urllib3 : Bool

-- The calls that were made, and whether the module was left by an AssertionError.
pub data Booted : Type 0 where
  boots : List BootCall → Booted
  assertion_error : List BootCall → Booted

-- The `if`s of the check, one after the other.
unfoldable pub check_sockets : Sockets → Bool
check_sockets sockets =
    if sockets.socket then (if sockets.requests then sockets.urllib3 else false) else false

-- patch_gevent, and what follows where it does not raise.
unfoldable pub patch_gevent : (with_check : Bool) → Sockets → List BootCall → Booted
unfolding check_sockets
patch_gevent true sockets later =
    if check_sockets sockets then boots (patch_all ∷ later) else assertion_error (patch_all ∷ [])
patch_gevent false sockets later = boots (patch_all ∷ later)

-- os.environ.setdefault("DJANGO_SETTINGS_MODULE", "main.settings")
settings_module : Environ → String
unfolding lookup
settings_module environ = elim (lookup "DJANGO_SETTINGS_MODULE" environ) [
  | none ↦ "main.settings"
  | some name ↦ name
]

-- The module wsgi.
unfoldable pub boot : Environ → Sockets → Booted
unfolding is_true patch_gevent settings_module
boot environ sockets =
    let gevent = is_true environ "SRV_UWSGI_GEVENT" in
    let inside = is_true environ "_SRV_RUNNING_INSIDE_UWSGI" in
    let load : List BootCall =
      get_wsgi_application (settings_module environ)
      ∷ (if inside then log_in_uwsgi else log_in_runserver)
      ∷ [] in
    if gevent && inside then patch_gevent true sockets (patch_psycopg ∷ load) else boots load

-- A response by its attributes: its own reason phrase, and that of its `_response`; none where there
-- is no such attribute, and a phrase may be None.
pub record ResponseObject : Type 0 where
  pub reason_phrase : Option (Option String)
  pub inner : Option (Option (Option String))

inner_phrase : Option (Option (Option String)) → Option String
inner_phrase (some (some phrase)) = phrase
inner_phrase other = none

unfoldable pub phrase_of : ResponseObject → Option String
unfolding inner_phrase
phrase_of response = elim response.reason_phrase [
  | some phrase ↦ phrase
  | none ↦ inner_phrase response.inner
]

-- if reason_phrase: uwsgi.set_logvar("reason_phrase", reason_phrase)
set_phrase : Option String → Dict String → Dict String
unfolding insert
set_phrase none logvars = logvars
set_phrase (some phrase) logvars =
    if str_eq phrase "" then logvars else insert "reason_phrase" phrase logvars

-- patched_application, on the response of the application and the variables of the log.
unfoldable pub patched_application : ResponseObject → Dict String → ResponseObject × Dict String
unfolding phrase_of set_phrase
patched_application response logvars = (response, set_phrase (phrase_of response) logvars)

-- A status code as log_request gets it.
pub data Code : Type 0 where
  http_status : (value : ℕ) → Code
  plain : String → Code

code_text : Code → String
unfolding show
code_text (http_status value) = show value
code_text (plain text) = text

-- The text that log_request of WSGIRequestHandler logs.
unfoldable pub log_request :
    (address requestline : String) → Code → (size : ℕ) → (phrase : String) → String
unfolding code_text show
log_request address requestline code size phrase =
    "django "
    <> (address
        <> (" \""
            <> (requestline
                <> ("\" "
                    <> (code_text code
                        <> (" \"" <> (phrase <> ("\" render " <> (show size <> "b")))))))))

-- s.split(" ", 1), where there is a space
unfoldable pub split_space : String → Option (String × String)
split_space [] = none
split_space (c ∷ s) =
    let rest : Option (String × String) = elim (split_space s) [
      | none ↦ none
      | some (a, b) ↦ some (c ∷ a, b)
    ] in
    if code c == b' ' then some ([], s) else rest

-- What happens in ServerHandler.close: a line of the log, and the close of SimpleHandler.
pub data Event : Type 0 where
  logs : String → Event
  closes : Event

-- The end of close: with a return, or with the exception of the `try`.
pub data CloseEnd : Type 0 where
  returns : CloseEnd
  raises : CloseEnd

-- The status is None where no response was started: None has no `split`.
try_log : (address requestline : String) → (bytes_sent : ℕ) → Option String → List Event × CloseEnd
unfolding split_space log_request
try_log address requestline bytes_sent none = ([], raises)
try_log address requestline bytes_sent (some status) = elim (split_space status) [
  | none ↦ ([], raises)
  | some (code, phrase) ↦
      (logs (log_request address requestline (plain code) bytes_sent phrase) ∷ [], returns)
]

unfoldable pub close :
    (address requestline : String) → (bytes_sent : ℕ) → Option String → List Event × CloseEnd
unfolding try_log
close address requestline bytes_sent status =
    let (events, end) = try_log address requestline bytes_sent status in
    (events ++ closes ∷ [], end)
