-- ===== src/Intake/Malware.antt =====
-- The malware scanners (src/document_core/malware.py). The socket and the reading of the file are
-- parameters.
pub mod Stream
use document_feeder.Prelude.{
  ℕ, zero, suc, ◌+◌, ◌/◌, ◌%◌, ◌≡◌, String, ◌<>◌, Bool, true, false, Option, none, some, List, [],
  ◌∷◌, ◌++◌, ◌==◌, eqb, length, if◌then◌else◌, Outcome, ok, raise,
}
use Prim.Native.String
use document_feeder.Prelude.Text.{strip_prefix}
use document_feeder.Auth.{Bytes, same_bytes}
use document_feeder.Intake.Validation.{Rejection, malware_detected, scanner_unavailable}
use document_feeder.Intake.Chunks.{chunks}

pub record MalwareScanResult : Type 0 where
  pub status : String
  pub engine : String

-- the settings of `ClamAVMalwareScanner`
pub record ClamAv : Type 0 where
  pub host : String
  pub port : ℕ
  pub timeout_seconds : ℕ
  pub chunk_size : ℕ

pub data MalwareScanner : Type 0 where
  disabled : MalwareScanner
  clamav : ClamAv → MalwareScanner

-- What a scan takes from outside, with the text of an `OSError`: opening a connection, the reading
-- of the file, the exchange on the connection of all that is sent for what is received, and
-- `decode("utf-8", errors="replace")`.
pub record Network : Type 0 where
  pub connect : String → ℕ → Option String
  pub read_bytes : String → Outcome String Bytes
  pub exchange : String → ℕ → Bytes → Outcome String Bytes
  pub decode_replace : Bytes → String

-- `struct.pack(">I", n)`, for a number below 2 ^ 32
abbrev pub pack : ℕ → Bytes
pack n = n / 16777216 % 256 ∷ n / 65536 % 256 ∷ n / 256 % 256 ∷ n % 256 ∷ []

-- what is sent for the chunks of a file
unfoldable pub frames : List Bytes → Bytes
frames [] = pack 0
frames (c ∷ cs) = pack (length c) ++ (c ++ frames cs)

-- `zINSTREAM\0`
abbrev pub instream : Bytes
instream = 122 ∷ 73 ∷ 78 ∷ 83 ∷ 84 ∷ 82 ∷ 69 ∷ 65 ∷ 77 ∷ 0 ∷ []

-- `zPING\0`
abbrev pub ping : Bytes
ping = 122 ∷ 80 ∷ 73 ∷ 78 ∷ 71 ∷ 0 ∷ []

abbrev pub pong : Bytes
pong = 80 ∷ 79 ∷ 78 ∷ 71 ∷ []

-- `rstrip(b"\0")`
unfoldable pub strip_zeros : Bytes → Bytes
strip_zeros [] = []
strip_zeros (b ∷ bytes) = elim (strip_zeros bytes) [
  | [] ↦ if eqb b 0 then [] else b ∷ []
  | c ∷ rest ↦ b ∷ c ∷ rest
]

-- the text before a suffix, if it ends with it
unfoldable pub strip_suffix : String → String → Option String
strip_suffix suffix String.[] = if suffix == "" then some "" else none
strip_suffix suffix (String.◌∷◌ c s) =
    if String.◌∷◌ c s == suffix
    then some ""
    else elim (strip_suffix suffix s) [ none ↦ none | some front ↦ some (String.◌∷◌ c front) ]

-- `text.partition(": ")[2]`
unfoldable pub behind : String → String → String
behind sep String.[] = ""
behind sep (String.◌∷◌ c s) =
    let rest = behind sep s in
    elim (strip_prefix sep (String.◌∷◌ c s)) [ none ↦ rest | some after ↦ after ]

abbrev pub or_unknown : String → String
or_unknown s = if s == "" then "unbekannte Signatur" else s

abbrev found_or_not : String → Option String → Outcome Rejection MalwareScanResult
found_or_not response (some front) =
    raise (malware_detected ("Malware erkannt: " <> or_unknown (behind ": " front)))
found_or_not response none =
    raise (scanner_unavailable ("Unerwartete Antwort des Malware-Scanners: " <> response))

-- the answer of the scanner
unfoldable pub judge : String → Outcome Rejection MalwareScanResult
unfolding strip_suffix behind
judge response = elim (strip_suffix " OK" response) [
  | some front ↦ ok (record { status = "clean"; engine = "clamav" })
  | none ↦ found_or_not response (strip_suffix " FOUND" response)
]

module _ (net : Network) where
  abbrev pub unreachable : String → Outcome Rejection MalwareScanResult
  unreachable e = raise (scanner_unavailable ("Malware-Scanner ist nicht erreichbar: " <> e))

  abbrev answered : Outcome String Bytes → Outcome Rejection MalwareScanResult
  answered (ok response) = judge (net.decode_replace (strip_zeros response))
  answered (raise e) = unreachable e

  abbrev sent : ClamAv → Outcome String Bytes → Outcome Rejection MalwareScanResult
  sent c (ok bytes) =
      answered (net.exchange c.host c.port (instream ++ frames (chunks c.chunk_size bytes)))
  sent c (raise e) = unreachable e

  abbrev connected : ClamAv → String → Option String → Outcome Rejection MalwareScanResult
  connected c path none = sent c (net.read_bytes path)
  connected c path (some e) = unreachable e

  -- `scan`
  unfoldable pub scan : MalwareScanner → String → Outcome Rejection MalwareScanResult
  unfolding judge strip_zeros frames chunks
  scan disabled path = ok (record { status = "disabled"; engine = "disabled" })
  scan (clamav c) path = connected c path (net.connect c.host c.port)

  abbrev pong_or_error : Outcome String Bytes → String
  pong_or_error (ok response) = if same_bytes (strip_zeros response) pong then "ok" else "error"
  pong_or_error (raise e) = "error"

  abbrev ponged : ClamAv → Option String → String
  ponged c none = pong_or_error (net.exchange c.host c.port ping)
  ponged c (some e) = "error"

  -- `healthcheck`
  unfoldable pub healthcheck : MalwareScanner → MalwareScanResult
  unfolding strip_zeros
  healthcheck disabled = record { status = "disabled"; engine = "disabled" }
  healthcheck (clamav c) = record {
    status = ponged c (net.connect c.host c.port);
    engine = "clamav";
  }

-- `create_malware_scanner`
unfoldable pub create_malware_scanner : String → String → ℕ → ℕ → ℕ → Outcome String MalwareScanner
create_malware_scanner provider host port timeout_seconds chunk_size =
    if provider == "disabled"
    then ok disabled
    else if provider == "clamav"
    then ok (
        clamav (record {
          host = host;
          port = port;
          timeout_seconds = timeout_seconds;
          chunk_size = chunk_size;
        }))
    else raise ("Unbekannter Malware-Scanner: " <> provider)
