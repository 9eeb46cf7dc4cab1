-- ===== src/Dashboard/Web.antt =====
-- Requests, answers and the two middlewares of src/blink_dashboard/app.py.
pub mod Laws
use blink_battery_benchmark.Common.{
  ℕ, Bool, true, false, not, ◌&&◌, ◌||◌, Option, none, some, List, [], ◌∷◌, ◌++◌, if◌then◌else◌,
}
use blink_battery_benchmark.Text.{Text, codes, text_eq, starts_with, is_ascii}
use blink_battery_benchmark.Action.{Error, type_error}

-- what a handler reads of a request
pub record Request : Type 0 where
  pub path : Text
  pub method : Text
  pub scheme : Text
  pub host : Text
  pub content_type : Text
  pub origin : Option Text
  pub query_token : Option Text
  pub cookie_token : Option Text
  pub query_limit : Option Text
  pub query_start : Option Text

pub record Response : Type 0 where
  pub status : ℕ
  pub error : Option Text
  pub location : Option Text
  pub cookie : Option Text
  pub headers : List (Text × Text)

-- A handler returns a response, raises one (`web.HTTPException`), or raises something else.
pub data Answer : Type 0 where
  answered raised_http : Response → Answer
  crashed : Error → Answer

-- a handler over a state `S`
abbrev pub Handler {ℓ} : Type ℓ → Type ℓ
Handler S = Request → S → Answer × S

abbrev pub response : ℕ → Option Text → Response
response status error = record {
  status = status;
  error = error;
  location = none;
  cookie = none;
  headers = [];
}

unfoldable pub is_private_path : Text → Bool
unfolding starts_with text_eq
is_private_path path =
    starts_with (codes "/api/") path
    || text_eq path (codes "/healthz")
    || text_eq path (codes "/latest.jpg")

-- `_apply_security_headers`; a dictionary's assignment replaces an earlier one, which no handler here
-- has made
unfoldable pub apply_security_headers : Request → Response → Response
unfolding is_private_path
apply_security_headers request r = record r {
  headers =
      r.headers
      ++ (codes "X-Content-Type-Options", codes "nosniff")
        ∷ (codes "Referrer-Policy", codes "no-referrer")
        ∷ (codes "Cross-Origin-Resource-Policy", codes "same-origin")
        ∷ (if is_private_path request.path
            then (codes "Cache-Control", codes "no-store") ∷ []
            else []);
}

abbrev pub with_headers : Request → Answer → Answer
with_headers request (answered r) = answered (apply_security_headers request r)
with_headers request (raised_http r) = raised_http (apply_security_headers request r)
with_headers request (crashed e) = crashed e

-- `_security_headers`
unfoldable pub security_headers {ℓ} : {S : Type ℓ} → Handler S → Handler S
security_headers handler request s =
    (with_headers request (handler request s).0, (handler request s).1)

-- `token is not None and hmac.compare_digest(token, expected)`; `none` is the TypeError for a text
-- that is not ASCII
abbrev pub token_matches : Text → Option Text → Option Bool
token_matches expected none = some false
token_matches expected (some token) =
    if is_ascii token && is_ascii expected then some (text_eq token expected) else none

abbrev pub is_origin : Option Text → Text → Bool
is_origin none expected = false
is_origin (some origin) expected = text_eq origin expected

-- a POST whose `Origin` is not the address that it was sent to
unfoldable pub is_foreign_post : Request → Bool
unfolding text_eq
is_foreign_post request =
    text_eq request.method (codes "POST")
    && not (is_origin request.origin (request.scheme ++ (codes "://" ++ request.host)))

abbrev pub expected_token : Option Text → Text
expected_token none = []
expected_token (some token) = token

abbrev pub redirect : Response
redirect = record (response 302 none) { location = some (codes "/") }

-- `set_cookie`, on a response that was returned
abbrev pub with_cookie : Bool → Text → Answer → Answer
with_cookie true token (answered r) = answered (record r { cookie = some token })
with_cookie _ token answer = answer

abbrev pub redirect_or {ℓ} : {S : Type ℓ} → Bool → Handler S → Handler S
redirect_or true handler request s = (answered redirect, s)
redirect_or false handler request s = handler request s

abbrev pub admitted {ℓ} : {S : Type ℓ} → Bool → Text → Handler S → Handler S
admitted matches token handler request s =
    let r = redirect_or (matches && text_eq request.path (codes "/")) handler request s in
    (with_cookie matches token r.0, r.1)

abbrev pub guarded {ℓ} : {S : Type ℓ} → Bool → Bool → Text → Handler S → Handler S
guarded query cookie token handler request s =
    if not (query || cookie)
    then (
      raised_http (response 401 (some (codes "A valid LAN dashboard access token is required"))),
      s,
    )
    else if is_foreign_post request
    then (
      raised_http (response 403 (some (codes "Cross-origin experiment controls are not allowed"))),
      s,
    )
    else admitted query token handler request s

-- with what the comparisons of the query's and the cookie's token gave
abbrev pub verified {ℓ} : {S : Type ℓ} → Option Bool → Option Bool → Text → Handler S → Handler S
verified (some query) (some cookie) token handler request s =
    guarded query cookie token handler request s
verified _ _ token handler request s = (crashed type_error, s)

-- `_access_control`
unfoldable pub access_control {ℓ} : {S : Type ℓ} → Bool → Option Text → Handler S → Handler S
unfolding is_foreign_post text_eq is_ascii
access_control allow_lan access_token handler request s =
    if not allow_lan || text_eq request.path (codes "/healthz")
    then handler request s
    else verified (token_matches (expected_token access_token) request.query_token)
        (token_matches (expected_token access_token) request.cookie_token)
        (expected_token access_token) handler request s
