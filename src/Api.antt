-- ===== src/Api.antt =====
-- web-ui/src/api.ts: the calls of the server. `fetch`, JSON and the network are not modelled: a call
-- is a function of what `fetch` delivers. A call that throws an `Error` gives its message.
pub mod QueryDns
pub mod Url
use tsymbiote.Prelude.{ℕ, String, ◌+++◌, Bool, ◌&&◌, Option, none, some, List, leb, if◌then◌else◌}
use tsymbiote.Prelude.Decimal.{show}

-- What `await response.json()` gives: a value, or the message of its rejection.
pub data Json {ℓ} (B : Type ℓ) : Type ℓ where
  parsed : B → Json B
  invalid : String → Json B

-- What `await fetch(…)` gives: a rejection with its message, or a status and a body.
pub data Fetched {ℓ} (B : Type ℓ) : Type ℓ where
  rejected : String → Fetched B
  response : ℕ → Json B → Fetched B

-- What an `async` function of the service gives.
pub data Outcome {ℓ} (A : Type ℓ) : Type ℓ where
  returned : A → Outcome A
  thrown : String → Outcome A

-- response.ok
abbrev pub is_ok : ℕ → Bool
is_ok status = leb 200 status && leb status 299

-- window.location, and the mode of the build
pub record Location : Type 0 where
  pub prod : Bool
  pub protocol : String
  pub host : String
  pub hostname : String

-- getApiBaseUrl
unfoldable pub get_api_base_url : Location → String
get_api_base_url l =
    if l.prod
    then l.protocol +++ "//" +++ l.host
    else l.protocol +++ "//" +++ l.hostname +++ ":3621"

pub data Method : Type 0 where
  get post : Method

-- One call of `fetch`: method, address and the body before JSON.stringify.
pub record Request {ℓ} (P : Type ℓ) : Type ℓ where
  pub method : Method
  pub url : String
  pub payload : Option P

-- An array of `T`, or some other JSON value where an array was expected.
pub data Body {ℓ} (A : Type ℓ) : Type ℓ where
  array : List A → Body A
  other : Body A

pub record HostResult {ℓ} (T : Type ℓ) : Type ℓ where
  pub host : String
  pub error : Option String
  pub result : Option T

-- `throw new Error(`HTTP error! status: ${response.status}`)`
abbrev pub http_error {ℓ} : {A : Type ℓ} → ℕ → Outcome A
http_error status = thrown ("HTTP error! status: " +++ show status)

abbrev pub read_json {ℓ} : {B : Type ℓ} → Json B → Outcome B
read_json (parsed b) = returned b
read_json (invalid m) = thrown m

-- `if (!response.ok) throw …; return response.json()`, the end of each call
unfoldable pub checked_json {ℓ} : {B : Type ℓ} → Fetched B → Outcome B
checked_json (rejected m) = thrown m
checked_json (response status body) = if is_ok status then read_json body else http_error status

module _ {B : Type 0} (loc : Location) where
  -- fetchHostData; `fetch` is what the network answers to a request.
  unfoldable pub fetch_host_data :
      (Request (List String) → Fetched (Body B)) → String → List String → Outcome (Body B)
  unfolding checked_json get_api_base_url
  fetch_host_data fetch endpoint hosts = checked_json (
      fetch (record {
        method = post;
        url = get_api_base_url loc +++ "/api/" +++ endpoint;
        payload = some hosts;
      }))

  -- fetchPeermap
  unfoldable pub fetch_peermap : (Request (Unit {0}) → Fetched B) → Outcome B
  unfolding checked_json get_api_base_url
  fetch_peermap fetch = checked_json (
      fetch
        (record { method = get; url = get_api_base_url loc +++ "/api/PeerMap"; payload = none }))

pub record PingArg : Type 0 where
  pub host : String
  pub targets : List String

pub record PingInput : Type 0 where
  pub count : ℕ
  pub ping_type : String
  pub delay : String
  pub args : List PingArg

-- executePing
unfoldable pub execute_ping :
    {B : Type 0} → Location → (Request PingInput → Fetched B) → PingInput → Outcome B
unfolding checked_json get_api_base_url
execute_ping loc fetch input = checked_json (
    fetch
      (record { method = post; url = get_api_base_url loc +++ "/api/Ping"; payload = some input }))

pub data PprofType : Type 0 where
  profile allocs block heap mutex threadcreate goroutine : PprofType

pub record PprofInput : Type 0 where
  pub hosts : List String
  pub type : PprofType
  pub seconds : Option ℕ

-- executePprof returns the response itself, whose status the caller tests again.
unfoldable pub execute_pprof :
    {B : Type 0} → Location → (Request PprofInput → Fetched B) → PprofInput → Outcome ℕ
unfolding get_api_base_url
execute_pprof {B} loc fetch input = answer (fetch request)
  where
    request : Request PprofInput
    request = record {
      method = post;
      url = get_api_base_url loc +++ "/api/Pprof";
      payload = some input;
    }

    answer : Fetched B → Outcome ℕ
    answer (rejected m) = thrown m
    answer (response status body) = if is_ok status then returned status else http_error status

-- fetchPprofFile; the body is the file's bytes
unfoldable pub fetch_pprof_file :
    {B : Type 0} → Location → (String → Fetched B) → String → Outcome B
unfolding get_api_base_url
fetch_pprof_file {B} loc fetch host_id =
    answer (fetch (get_api_base_url loc +++ "/static/pprof/" +++ host_id +++ ".pprof"))
  where
    answer : Fetched B → Outcome B
    answer (rejected m) = thrown m
    answer (response status body) =
        if is_ok status
        then read_json body
        else thrown ("Failed to fetch pprof file: HTTP " +++ show status)
