-- ===== src/Api/QueryDns.antt =====
-- executeQueryDNS of web-ui/src/api.ts: an answer with status 400 is turned into results.
use tsymbiote.Prelude.{
  ℕ, String, ◌+++◌, ◌≡◌, refl, ap, ◌≢◌, ◌↔◌, inl, inr, true, false, Option, none, some, List, [],
  ◌∷◌, map, arith, ◌==◌, eq_iff, nat_eq, if◌then◌else◌, Bool-cases, Option-cases, ==_of_ne, All,
}
use tsymbiote.Prelude.Decimal.{show}
use tsymbiote.Api.{
  Json, parsed, invalid, Fetched, rejected, response, Outcome, returned, thrown, is_ok, Location,
  get_api_base_url, Request, post, http_error, checked_json,
}

pub record QueryDnsInput : Type 0 where
  pub hosts : List String
  pub name : String
  pub query_type : String

-- `T` is the type of the parts that the app only displays.
pub record QueryDnsResult (T : Type 0) : Type 0 where
  pub host : String
  pub error : Option String
  pub header : Option T
  pub responses : Option T
  pub resolvers : Option T

-- A JSON body: null, an object with an `error` field, an array of results, or something else
-- without such a field.
pub data DnsBody (T : Type 0) : Type 0 where
  null : DnsBody T
  error_object : String → DnsBody T
  results : List (QueryDnsResult T) → DnsBody T
  other : DnsBody T

module _ {T : Type 0} where
  abbrev host_error : String → String → QueryDnsResult T
  host_error e h = record {
    host = h;
    error = some e;
    header = none;
    responses = none;
    resolvers = none;
  }

  -- The `try` block for status 400; `none` falls through to the `throw`. Reading a field of `null`
  -- throws inside the block.
  unfoldable pub validation_results : List String → Json (DnsBody T) → Option (DnsBody T)
  validation_results hosts (invalid m) = none
  validation_results hosts (parsed null) = none
  validation_results hosts (parsed (error_object e)) =
      if e == "" then none else some (results (map (host_error e) hosts))
  validation_results hosts (parsed (results rs)) = some (results rs)
  validation_results hosts (parsed other) = none

  or_throw : ℕ → Option (DnsBody T) → Outcome (DnsBody T)
  or_throw status none = http_error status
  or_throw status (some b) = returned b

  answer : List String → Fetched (DnsBody T) → Outcome (DnsBody T)
  unfolding validation_results or_throw checked_json
  answer hosts (rejected m) = thrown m
  answer hosts (response status body) =
      if nat_eq status 400
      then or_throw status (validation_results hosts body)
      else checked_json (response status body)

  -- executeQueryDNS
  unfoldable pub execute_query_dns :
      Location → (Request QueryDnsInput → Fetched (DnsBody T)) → QueryDnsInput → Outcome (DnsBody T)
  unfolding answer get_api_base_url
  execute_query_dns loc fetch input = answer input.hosts (
      fetch (record {
        method = post;
        url = get_api_base_url loc +++ "/api/QueryDNS";
        payload = some input;
      }))

abbrev pub query_request : Location → QueryDnsInput → Request QueryDnsInput
query_request loc input = record {
  method = post;
  url = get_api_base_url loc +++ "/api/QueryDNS";
  payload = some input;
}

-- A body that reports no validation error: it is no JSON, null, an object with an empty error, or
-- neither an object with an error nor a list.
pub data IsUnexplained {T : Type 0} : Json (DnsBody T) → Type 0 where
  no_json_at_all : (m : String) → IsUnexplained (invalid m)
  is_null : IsUnexplained (parsed null)
  empty_error : (e : String) → e ≡ "" → IsUnexplained (parsed (error_object e))
  no_error_field : IsUnexplained (parsed other)

-- When a query throws: the request was rejected; or the status is 400 and the body reports no
-- validation error; or it is another status outside 200 to 299; or the body of a good
-- answer is no JSON.
pub data Throws {T : Type 0} (hosts : List String) : Fetched (DnsBody T) → Type 0 where
  no_answer : (m : String) → Throws hosts (rejected m)
  not_validation :
      (status : ℕ) (body : Json (DnsBody T))
      → status ≡ 400
      → IsUnexplained body
      → Throws hosts (response status body)
  bad_status :
      (status : ℕ) (body : Json (DnsBody T))
      → status ≢ 400
      → is_ok status ≡ false
      → Throws hosts (response status body)
  no_json :
      (status : ℕ) (m : String) → is_ok status ≡ true → Throws hosts (response status (invalid m))

module _ {T : Type 0} (hosts : List String) where
  unexplained :
      (body : Json (DnsBody T)) → validation_results hosts body ≡ none → IsUnexplained body
  unfolding validation_results
  unexplained (invalid m) h = no_json_at_all m
  unexplained (parsed null) h = is_null
  unexplained (parsed (error_object e)) h = empty_error e (ground (arith, h, eq_iff e ""))
  unexplained (parsed (results rs)) h = absurd (ground (arith, h))
  unexplained (parsed other) h = no_error_field

  no_results : {body : Json (DnsBody T)} → IsUnexplained body → validation_results hosts body ≡ none
  unfolding validation_results
  no_results (no_json_at_all m) = refl
  no_results is_null = refl
  no_results (empty_error e empty) = rw empty refl
  no_results no_error_field = refl

  other_status :
      (status : ℕ) (body : Json (DnsBody T)) {m : String}
      → status ≢ 400
      → checked_json (response status body) ≡ thrown m
      → Throws hosts (response status body)
  unfolding checked_json
  other_status status (parsed b) ne e = bad_status status (parsed b) ne (ground (arith, e))
  other_status status (invalid m') ne e = elim (Bool-cases (is_ok status)) [
    | inl fine ↦ no_json status m' fine
    | inr bad ↦ bad_status status (invalid m') ne bad
  ]

  answer_sound : (f : Fetched (DnsBody T)) {m : String} → answer hosts f ≡ thrown m → Throws hosts f
  unfolding answer
  answer_sound (rejected m) e = no_answer m
  answer_sound (response status body) {m} e = elim (Bool-cases (nat_eq status 400)) [
    | inl bad ↦ elim (Option-cases (validation_results hosts body)) [
      | inl nothing ↦ not_validation status body (ground arith) (unexplained body nothing)
      | inr (b, q) ↦ absurd (ground (arith, e, bad, q))
    ]
    | inr fine ↦ other_status status body (ground arith) (rw fine at e)
  ]

  answer_complete :
      {f : Fetched (DnsBody T)} → Throws hosts f → (m : String) × (answer hosts f ≡ thrown m)
  unfolding answer
  answer_complete (no_answer m) = (m, refl)
  answer_complete (not_validation status body bad nothing) =
      ("HTTP error! status: " +++ show status, ground (arith, no_results nothing))
  answer_complete (bad_status status body ne bad) =
      ("HTTP error! status: " +++ show status, unfold checked_json in ground arith)
  answer_complete (no_json status m fine) = (m, unfold checked_json in ground arith)

-- A query throws exactly if the request is rejected, or the status is 400 and the body is no JSON,
-- null, an object with an empty error, or neither an object with an error nor a list, or the status is another one outside 200 to 299, or
-- it is one from 200 to 299 and the body is no JSON.
pub execute_query_dns-Throws_iff :
    {T : Type 0} (loc : Location) (fetch : Request QueryDnsInput → Fetched (DnsBody T))
    (input : QueryDnsInput)
    → ((m : String) × (execute_query_dns loc fetch input ≡ thrown m))
      ↔ Throws input.hosts (fetch (query_request loc input))
unfolding execute_query_dns
execute_query_dns-Throws_iff loc fetch input = (
  λ (m, e). answer_sound input.hosts (fetch (query_request loc input)) e,
  answer_complete input.hosts,
)

-- A validation error, status 400 with a non-empty message, gives one result for each host of the
-- query, in order, each with that message.
execute_query_dns_validation :
    {T : Type 0} (loc : Location) (fetch : Request QueryDnsInput → Fetched (DnsBody T))
    (input : QueryDnsInput) (e : String)
    → e ≢ ""
    → fetch (query_request loc input) ≡ response 400 (parsed (error_object e))
    → (rs : List (QueryDnsResult T)) × (execute_query_dns loc fetch input ≡ returned (results rs))
      × (map (λ r. r.host) rs ≡ input.hosts)
      × All (λ r. r.error ≡ some e) rs
unfolding execute_query_dns answer validation_results or_throw
execute_query_dns_validation {T} loc fetch input e filled got = (
  map (host_error {T = T} e) input.hosts,
  rw got (rw (==_of_ne e "" filled)),
  hosts_same input.hosts,
  errors_same input.hosts,
)
  where
    hosts_same : (hs : List String) → map (λ r. r.host) (map (host_error {T = T} e) hs) ≡ hs
    hosts_same [] = refl
    hosts_same (h ∷ hs) = ap (λ (t : List String). h ∷ t) (hosts_same hs)

    errors_same : (hs : List String) → All (λ r. r.error ≡ some e) (map (host_error {T = T} e) hs)
    errors_same [] = tt
    errors_same (h ∷ hs) = (refl, errors_same hs)
