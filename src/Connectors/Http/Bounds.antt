-- ===== src/Connectors/Http/Bounds.antt =====
-- How an HTTP target's errors are told apart (src/document_core/connectors.py).
use document_feeder.Prelude.{
  ℕ, ◌≤◌, ◌<◌, ◌≡◌, eqb, exists, [], ◌∷◌, refl, String, Bool, true, false, Option, none, some, ltb,
  arith, Bool-cases, inl, inr, Outcome, ok, raise, length, ◌==◌,
}
use document_feeder.Auth.{Bytes}
use document_feeder.Json.{Json}
use document_feeder.Connectors.{DeliveryReceipt, Failure, permanent, temporary, os_error, other}
use document_feeder.Connectors.Http.{
  HttpLibrary, HttpAnswer, no_bytes, Reply, answer, http_error, url_error, timed_out, Loaded, json,
  json_error, value_error, seconds_of, delayed, capped, seconds_until, is_temporary,
  parse_retry_after, error_failure, parsed, read_answer, deliver_reply,
}

-- A delay, where there is one, is at most a day.
abbrev IsBounded : Option ℕ → Type 0
IsBounded none = Unit
IsBounded (some seconds) = seconds ≤ 86400

capped-IsBounded : (n : Option ℕ) → IsBounded (capped n)
capped-IsBounded none = tt
capped-IsBounded (some n) = omega arith

-- the statuses after which another attempt makes sense
abbrev pub is_retried : ℕ → Bool
is_retried status = exists (λ s. eqb status s) (408 ∷ 425 ∷ 429 ∷ 500 ∷ 502 ∷ 503 ∷ 504 ∷ [])

abbrev is_object : Json → Bool
is_object (Json.object d) = true
is_object v = false

-- why an answer is no receipt
pub data Fault (lib : HttpLibrary) (limit : ℕ) (a : HttpAnswer) : Type 0 where
  oversized : limit < length a.body → Fault lib limit a
  not_json :
      no_bytes a.body ≡ false
      → (lib.media_type a.content_type == "application/json") ≡ false
      → Fault lib limit a
  broken : lib.json_loads a.body ≡ json_error → Fault lib limit a
  no_object : (v : Json) → lib.json_loads a.body ≡ json v → is_object v ≡ false → Fault lib limit a

-- The header asks for a number of seconds that `int` does not read.
pub record IsUnreadable (lib : HttpLibrary) (value : Option String) : Type 0 where
  pub header : String
  pub sent : value ≡ some header
  pub digits : lib.isdigit (lib.strip header) ≡ true
  pub unread : lib.int_of (lib.strip header) ≡ none

-- How a reply of the target must end the delivery: an answer with a receipt of its status, for which
-- it has to keep within the limit, with a permanent error for a fault, or with the error of
-- `json.loads`; an error status with a temporary error or a permanent one, as its status says, or
-- with the error of `int`; a network error with a temporary one. The delay of a temporary error is
-- bounded.
unfoldable pub IsJudged : HttpLibrary → ℕ → Reply → Outcome Failure DeliveryReceipt → Type 0
IsJudged lib limit (answer a) (ok receipt) =
    (length a.body ≤ limit) × (receipt.status_code ≡ some a.status)
IsJudged lib limit (answer a) (raise (permanent m)) = Fault lib limit a
IsJudged lib limit (answer a) (raise (other m)) = lib.json_loads a.body ≡ value_error m
IsJudged lib limit (http_error status body value) (raise (permanent m)) = is_retried status ≡ false
IsJudged lib limit (http_error status body value) (raise (temporary m delay)) =
    (is_retried status ≡ true) × IsBounded delay
IsJudged lib limit (http_error status body value) (raise (other m)) =
    (is_retried status ≡ true) × IsUnreadable lib value
IsJudged lib limit (url_error reason) (raise (temporary m delay)) = delay ≡ none
IsJudged lib limit timed_out (raise (temporary m delay)) = delay ≡ none
IsJudged lib limit _ _ = ⊥

module _ (lib : HttpLibrary) where
  -- a parsed header, or why it is not parsed
  abbrev IsParsed : Option String → Outcome Failure (Option ℕ) → Type 0
  IsParsed value (ok delay) = IsBounded delay
  IsParsed value (raise (other m)) = IsUnreadable lib value
  IsParsed value (raise e) = ⊥

  seconds_of-IsParsed :
      (value : String) (n : Option ℕ)
      → lib.isdigit (lib.strip value) ≡ true
      → lib.int_of (lib.strip value) ≡ n
      → IsParsed (some value) (seconds_of lib (lib.strip value) n)
  seconds_of-IsParsed value none d e = record {
    header = value;
    sent = refl;
    digits = d;
    unread = e;
  }
  seconds_of-IsParsed value (some n) d e = capped-IsBounded (some n)

  parse_retry_after-IsParsed :
      (value : Option String) (now : ℕ) → IsParsed value (parse_retry_after lib value now)
  unfolding parse_retry_after
  parse_retry_after-IsParsed none now = tt
  parse_retry_after-IsParsed (some value) now = elim (Bool-cases (value == "")) [
    | inl e ↦ rw e tt
    | inr e ↦ elim (Bool-cases (lib.isdigit (lib.strip value))) [
      | inl d ↦ rw (e, d) (seconds_of-IsParsed value _ d refl)
      | inr d ↦ rw (e, d) (capped-IsBounded (seconds_until (lib.parsedate value) now))
    ]
  ]

  delayed-IsJudged :
      (limit status : ℕ) (body : Bytes) (value : Option String) (message : String)
      (r : Outcome Failure (Option ℕ))
      → is_retried status ≡ true
      → IsParsed value r
      → IsJudged lib limit (http_error status body value) (raise (delayed lib message r))
  unfolding IsJudged
  delayed-IsJudged limit status body value message (ok delay) e b = (e, b)
  delayed-IsJudged limit status body value message (raise (other m)) e b = (e, b)
  delayed-IsJudged limit status body value message (raise (permanent m)) e b = absurd b
  delayed-IsJudged limit status body value message (raise (temporary m n)) e b = absurd b
  delayed-IsJudged limit status body value message (raise (os_error m)) e b = absurd b

  error_failure-IsJudged :
      (service : String) (limit status : ℕ) (body : Bytes) (value : Option String) (now : ℕ)
      → IsJudged lib limit
          (http_error status body value)
          (raise (error_failure lib service limit status body value now))
  unfolding error_failure IsJudged
  error_failure-IsJudged service limit status body value now =
      elim (Bool-cases (is_temporary status)) [
        | inl e ↦
            rw e (
              delayed-IsJudged limit status body value _ _ e (parse_retry_after-IsParsed value now))
        | inr e ↦ rw e e
      ]

  parsed-IsJudged :
      (job_id : String) (limit : ℕ) (a : HttpAnswer) (content_type : String) (r : Loaded)
      → lib.json_loads a.body ≡ r
      → length a.body ≤ limit
      → IsJudged lib limit (answer a) (parsed lib job_id a content_type r)
  unfolding IsJudged
  parsed-IsJudged job_id limit a content_type json_error e h = broken e
  parsed-IsJudged job_id limit a content_type (value_error m) e h = e
  parsed-IsJudged job_id limit a content_type (json (Json.object d)) e h = (h, refl)
  parsed-IsJudged job_id limit a content_type (json (Json.null)) e h = no_object (Json.null) e refl
  parsed-IsJudged job_id limit a content_type (json (Json.bool b)) e h =
      no_object (Json.bool b) e refl
  parsed-IsJudged job_id limit a content_type (json (Json.number n)) e h =
      no_object (Json.number n) e refl
  parsed-IsJudged job_id limit a content_type (json (Json.thousandths n)) e h =
      no_object (Json.thousandths n) e refl
  parsed-IsJudged job_id limit a content_type (json (Json.text t)) e h =
      no_object (Json.text t) e refl
  parsed-IsJudged job_id limit a content_type (json (Json.array xs)) e h =
      no_object (Json.array xs) e refl

  read_answer-IsJudged :
      (job_id : String) (limit : ℕ) (a : HttpAnswer)
      → IsJudged lib limit (answer a) (read_answer lib job_id limit a)
  unfolding read_answer IsJudged
  read_answer-IsJudged job_id limit a = elim (Bool-cases (ltb limit (length a.body))) [
    | inl e ↦ rw e (oversized (ground (arith, e)))
    | inr e ↦ elim (Bool-cases (no_bytes a.body)) [
      | inl b ↦ rw (e, b) (ground (arith, e), refl)
      | inr b ↦ elim (Bool-cases (lib.media_type a.content_type == "application/json")) [
        | inl d ↦
            rw (e, b, d)
              (parsed-IsJudged job_id limit a (lib.media_type a.content_type)
                (lib.json_loads a.body) refl (ground (arith, e)))
        | inr d ↦ rw (e, b, d) (not_json b d)
      ]
    ]
  ]

  -- For every reply that is read to its end, every limit and clock reading, `deliver` ends as the
  -- reply demands. An answer ends with a receipt of its status, only for a body within the limit,
  -- with a permanent error, only where the body is too large, no JSON object or not declared as
  -- JSON, or with another error that `json.loads` raises. An error status ends with a temporary
  -- error just for 408, 425, 429, 500, 502, 503 and 504, with a delay of at most a day if there is
  -- one, or for these with the error of `int` for a delay that it does not read, and otherwise with
  -- a permanent one. A network error ends with a temporary error without a delay.
  pub deliver_reply-IsJudged :
      (job_id : String) (limit now : ℕ) (reply : Reply)
      → IsJudged lib limit reply (deliver_reply lib job_id limit now reply)
  unfolding deliver_reply IsJudged
  deliver_reply-IsJudged job_id limit now (answer a) = read_answer-IsJudged job_id limit a
  deliver_reply-IsJudged job_id limit now (http_error status body value) =
      error_failure-IsJudged "HTTP-Ziel" limit status body value now
  deliver_reply-IsJudged job_id limit now (url_error reason) = refl
  deliver_reply-IsJudged job_id limit now timed_out = refl
