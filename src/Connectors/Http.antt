-- ===== src/Connectors/Http.antt =====
-- The connector to an HTTP target (src/document_core/connectors.py): the reading of its answer. The
-- network and the parsers of JSON and of dates are parameters.
pub mod Bounds
use Prim.Native.Char.{code}
use Prim.Native.String
use document_feeder.Prelude.{
  ℕ, ◌-◌, ◌/◌, ◌≤◌, ◌≡◌, refl, String, ◌<>◌, Bool, true, false, not, ◌&&◌, ◌||◌, Option, none, some,
  List, [], ◌∷◌, ◌==◌, leb, ltb, eqb, exists, length, min, arith, if◌then◌else◌, Bool-cases, inl,
  inr, Outcome, ok, raise,
}
use document_feeder.Prelude.Decimal.{of_decimal, to_decimal}
use document_feeder.Prelude.Pages.{take}
use document_feeder.Json.{Json, Fields, null, text, object, empty, field, get, optional_text}
use document_feeder.Auth.{Bytes}
use document_feeder.Licensing.{Moment, instant, truthy}
use document_feeder.Connectors.{DeliveryReceipt, Failure, permanent, temporary, other}

-- the answer of a server, or what `urlopen` raises
pub record HttpAnswer : Type 0 where
  pub status : ℕ
  pub content_type : String
  pub location : Option String
  pub body : Bytes

pub data Reply : Type 0 where
  answer : HttpAnswer → Reply
  http_error : ℕ → Bytes → Option String → Reply
  url_error : String → Reply
  timed_out : Reply

-- what `json.loads` gives: a value, a `JSONDecodeError`, or another error with its text, such as a
-- `UnicodeDecodeError`
pub data Loaded : Type 0 where
  json : Json → Loaded
  json_error : Loaded
  value_error : String → Loaded

-- What the reading takes from libraries: `str.strip`, `str.isdigit`, `int` of a text, which may
-- raise, `parsedate_to_datetime`, which may raise, the part of a content type before `;` in lower
-- case, `json.loads`, `str` of a value that is no text, and `decode("utf-8", errors="replace")`.
pub record HttpLibrary : Type 0 where
  pub strip : String → String
  pub isdigit : String → Bool
  pub int_of : String → Option ℕ
  pub parsedate : String → Option Moment
  pub media_type : String → String
  pub json_loads : Bytes → Loaded
  pub str_of : Json → String
  pub decode_replace : Bytes → String

abbrev pub capped : Option ℕ → Option ℕ
capped none = none
capped (some n) = some (min n 86400)

-- `int((retry_at - now).total_seconds())`, and 0 for a time that has passed
abbrev pub seconds_until : Option Moment → ℕ → Option ℕ
seconds_until none now = none
seconds_until (some m) now = some ((instant m - now) / 1000000)

-- `temporary_statuses`
abbrev pub temporary_statuses : List ℕ
temporary_statuses = 408 ∷ 425 ∷ 429 ∷ 500 ∷ 502 ∷ 503 ∷ 504 ∷ []

abbrev pub is_temporary : ℕ → Bool
is_temporary status = exists (λ s. eqb status s) temporary_statuses

abbrev pub no_bytes : Bytes → Bool
no_bytes [] = true
no_bytes (b ∷ bytes) = false

module _ (lib : HttpLibrary) where
  -- `min(int(text), 86400)`; the error of `int` is not caught
  abbrev pub seconds_of : String → Option ℕ → Outcome Failure (Option ℕ)
  seconds_of literal none = raise (other ("invalid literal for int() with base 10: " <> literal))
  seconds_of literal (some n) = ok (capped (some n))

  -- `parse_retry_after`, with the time `now`
  unfoldable pub parse_retry_after : Option String → ℕ → Outcome Failure (Option ℕ)
  parse_retry_after none now = ok none
  parse_retry_after (some value) now =
      if value == ""
      then ok none
      else if lib.isdigit (lib.strip value)
      then seconds_of (lib.strip value) (lib.int_of (lib.strip value))
      else ok (capped (seconds_until (lib.parsedate value) now))

  abbrev pub delayed : String → Outcome Failure (Option ℕ) → Failure
  delayed message (ok delay) = temporary message delay
  delayed message (raise e) = e

  -- the failure of an answer with an error status
  unfoldable pub error_failure : String → ℕ → ℕ → Bytes → Option String → ℕ → Failure
  unfolding parse_retry_after
  error_failure service limit status body retry_after now =
      let message =
        service
        <> (" antwortete mit "
            <> (to_decimal status <> (": " <> lib.decode_replace (take (min limit 500) body)))) in
      if is_temporary status
      then delayed message (parse_retry_after retry_after now)
      else permanent message

  -- the first of the values that Python takes for true, as a text
  abbrev pub str : Json → String
  str (Json.text s) = s
  str v = lib.str_of v

  abbrev pub or_text : Option Json → String → String
  or_text none rest = rest
  or_text (some v) rest = if truthy v then str v else rest

  abbrev pub or_header : Option String → String → String
  or_header none rest = rest
  or_header (some s) rest = if s == "" then rest else s

  abbrev pub or_none : String → Option String
  or_none s = if s == "" then none else some s

  -- `{key: data[key] for key in (…) if key in data}`
  abbrev pub kept_field : String → Option Json → Fields → Fields
  kept_field key none rest = rest
  kept_field key (some v) rest = field key v rest

  abbrev pub acknowledgement : Fields → Fields
  acknowledgement d =
      kept_field "reference" (get "reference" d)
        (kept_field "id" (get "id" d) (kept_field "status" (get "status" d) empty))

  abbrev pub receipt_of : String → HttpAnswer → String → Fields → DeliveryReceipt
  receipt_of job_id a content_type d = record {
    reference = or_text (get "reference" d) (
        or_text (get "id" d)
          (or_header a.location ("http:" <> (to_decimal a.status <> (":" <> job_id)))));
    connector = "http";
    status_code = some a.status;
    content_type = or_none content_type;
    details =
        field "location" (optional_text a.location)
          (field "acknowledgement" (object (acknowledgement d)) empty);
  }

  abbrev pub parsed : String → HttpAnswer → String → Loaded → Outcome Failure DeliveryReceipt
  parsed job_id a content_type json_error = raise (permanent "HTTP-Ziel lieferte ungültiges JSON")
  parsed job_id a content_type (value_error e) = raise (other e)
  parsed job_id a content_type (json (Json.object d)) = ok (receipt_of job_id a content_type d)
  parsed job_id a content_type (json v) =
      raise (permanent "HTTP-Zielquittung muss ein JSON-Objekt sein")

  -- a successful answer: its size, its type and its content
  unfoldable pub read_answer : String → ℕ → HttpAnswer → Outcome Failure DeliveryReceipt
  read_answer job_id limit a =
      let content_type = lib.media_type a.content_type in
      if ltb limit (length a.body)
      then raise (permanent "HTTP-Zielantwort überschreitet das Größenlimit")
      else if not (no_bytes a.body) && not (content_type == "application/json")
      then raise (
          permanent (
            "Unerwarteter Content-Type der Zielantwort: "
            <> (if content_type == "" then "unbekannt" else content_type)))
      else parsed job_id a content_type
          (if no_bytes a.body then json (object empty) else lib.json_loads a.body)

  -- `HttpConnector.deliver`, from the reply of the target on
  unfoldable pub deliver_reply : String → ℕ → ℕ → Reply → Outcome Failure DeliveryReceipt
  unfolding read_answer error_failure
  deliver_reply job_id limit now (answer a) = read_answer job_id limit a
  deliver_reply job_id limit now (http_error status body retry_after) =
      raise (error_failure "HTTP-Ziel" limit status body retry_after now)
  deliver_reply job_id limit now (url_error reason) =
      raise (temporary ("HTTP-Ziel nicht erreichbar: " <> reason) none)
  deliver_reply job_id limit now timed_out =
      raise (temporary "Zeitüberschreitung beim HTTP-Ziel" none)

  -- `HttpConnector.healthcheck`, with the URL of the target and the reply to a request there
  unfoldable pub healthy : Option String → ℕ → Reply → Bool
  healthy (some url) limit (answer a) =
      if url == ""
      then false
      else not (ltb limit (length a.body)) && (leb 200 a.status && ltb a.status 400)
  healthy _ limit _ = false
