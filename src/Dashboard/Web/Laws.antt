-- ===== src/Dashboard/Web/Laws.antt =====
-- Which requests reach a handler.
use blink_battery_benchmark.Common.{
  ℕ, ◌≡◌, refl, Bool, true, false, not, ◌&&◌, ◌||◌, Option, none, some, ◌++◌, Bool-cases, inl, inr,
  if◌then◌else◌, ◌∙◌,
}
use blink_battery_benchmark.Text.{Text, codes, text_eq, is_ascii}
use blink_battery_benchmark.Dashboard.Web.{
  Request, Answer, answered, raised_http, crashed, Handler, apply_security_headers, with_headers,
  security_headers, token_matches, is_foreign_post, with_cookie, is_origin, redirect_or, verified,
  admitted, guarded, expected_token, access_control,
}

-- the status of an answer, if it has one
abbrev pub status_of : Answer → Option ℕ
status_of (answered r) = some r.status
status_of (raised_http r) = some r.status
status_of (crashed e) = none

with_cookie-status :
    (b : Bool) (token : Text) (a : Answer) → status_of (with_cookie b token a) ≡ status_of a
with_cookie-status true token (answered r) = refl
with_cookie-status true token (raised_http r) = refl
with_cookie-status true token (crashed e) = refl
with_cookie-status false token a = refl

with_headers-status :
    (request : Request) (a : Answer) → status_of (with_headers request a) ≡ status_of a
unfolding apply_security_headers
with_headers-status request (answered r) = refl
with_headers-status request (raised_http r) = refl
with_headers-status request (crashed e) = refl

-- a text that is there, and is a given one
abbrev pub is_the : Text → Option Text → Bool
is_the expected none = false
is_the expected (some text) = text_eq text expected

-- a text that is not there, or that can be compared with a given one
abbrev pub is_comparable : Text → Option Text → Bool
is_comparable expected none = true
is_comparable expected (some text) = is_ascii text && is_ascii expected

-- What is to become of a request, told from its parts.
pub data Verdict : Type 0 where
  passes crashes : Verdict
  answered_with : ℕ → Verdict

abbrev pub verdict : Text → Request → Verdict
verdict token r =
    if not (is_comparable token r.query_token && is_comparable token r.cookie_token)
    then crashes
    else if not (is_the token r.query_token || is_the token r.cookie_token)
    then answered_with 401
    else if text_eq r.method (codes "POST")
        && not (is_the (r.scheme ++ (codes "://" ++ r.host)) r.origin)
    then answered_with 403
    else if is_the token r.query_token && text_eq r.path (codes "/")
    then answered_with 302
    else passes

abbrev pub verdict_status : Verdict → Option ℕ → Option ℕ
verdict_status passes status = status
verdict_status crashes status = none
verdict_status (answered_with n) status = some n

abbrev pub verdict_state {ℓ} : {S : Type ℓ} → Verdict → S → S → S
verdict_state passes s' s = s'
verdict_state _ s' s = s

token_matches-the :
    (expected : Text) (o : Option Text)
    → token_matches expected o
      ≡ (if is_comparable expected o then some (is_the expected o) else none)
token_matches-the expected none = refl
token_matches-the expected (some text) = refl

is_foreign_post-the :
    (r : Request)
    → is_foreign_post r
      ≡ text_eq r.method (codes "POST")
        && not (is_the (r.scheme ++ (codes "://" ++ r.host)) r.origin)
unfolding is_foreign_post
is_foreign_post-the r = origin_of r.origin
  where
    origin_of :
        (o : Option Text)
        → text_eq r.method (codes "POST") && not (is_origin o (r.scheme ++ (codes "://" ++ r.host)))
          ≡ text_eq r.method (codes "POST") && not (is_the (r.scheme ++ (codes "://" ++ r.host)) o)
    origin_of none = refl
    origin_of (some text) = refl

module _ {ℓ} {S : Type ℓ} (token : Text) (handler : Handler S) (request : Request) (s : S) where
  -- what the middleware gives, and what it is to give
  abbrev Judged : Verdict → Answer × S → Type ℓ
  Judged v r =
      (status_of (with_headers request r.0) ≡ verdict_status v (status_of (handler request s).0))
      × (r.1 ≡ verdict_state v (handler request s).1 s)

  admitted-Judged :
      (matches : Bool)
      → Judged
          (if matches && text_eq request.path (codes "/") then answered_with 302 else passes)
          (admitted matches token handler request s)
  admitted-Judged matches = elim (Bool-cases (matches && text_eq request.path (codes "/"))) [
    | inl leaves ↦ rw leaves (kept matches (redirect_or true handler request s).0, refl)
    | inr stays ↦ rw stays (kept matches (redirect_or false handler request s).0, refl)
  ]
    where
      kept :
          (b : Bool) (a : Answer)
          → status_of (with_headers request (with_cookie b token a)) ≡ status_of a
      kept b a = with_headers-status request (with_cookie b token a) ∙ with_cookie-status b token a

  guarded-Judged :
      (query cookie : Bool)
      → Judged
          (if not (query || cookie)
            then answered_with 401
            else if is_foreign_post request
            then answered_with 403
            else if query && text_eq request.path (codes "/")
            then answered_with 302
            else passes)
          (guarded query cookie token handler request s)
  unfolding apply_security_headers
  guarded-Judged query cookie = elim (Bool-cases (query || cookie)) [
    | inr stranger ↦ rw stranger (refl, refl)
    | inl known ↦ elim (Bool-cases (is_foreign_post request)) [
      | inl foreign ↦ rw (known, foreign) (refl, refl)
      | inr same ↦ rw (known, same) (admitted-Judged query)
    ]
  ]

  verified-Judged :
      (a b : Bool) (query cookie : Bool)
      → Judged
          (if not (a && b)
            then crashes
            else if not (query || cookie)
            then answered_with 401
            else if is_foreign_post request
            then answered_with 403
            else if query && text_eq request.path (codes "/")
            then answered_with 302
            else passes)
          (verified
            (if a then some query else none)
            (if b then some cookie else none)
            token
            handler
            request
            s)
  verified-Judged true true query cookie = guarded-Judged query cookie
  verified-Judged true false query cookie = (refl, refl)
  verified-Judged false true query cookie = (refl, refl)
  verified-Judged false false query cookie = (refl, refl)

-- In LAN mode, for any path but the health check's: a request with a token, in its query or
-- cookie, that cannot be compared (it or the expected one is not ASCII) crashes; else one of which
-- neither token is the expected one gets 401; else a POST whose origin is not the address that it
-- was sent to gets 403; else the first page with the expected token in its query is a redirect
-- with status 302; in these cases the state is untouched. Any other request gets the handler's
-- status and its state.
pub access_control-lan {ℓ} :
    {S : Type ℓ} (access_token : Option Text) (handler : Handler S) (request : Request) (s : S)
    → text_eq request.path (codes "/healthz") ≡ false
    → let served = security_headers (access_control true access_token handler) request s in
      let v = verdict (expected_token access_token) request in
      (status_of served.0 ≡ verdict_status v (status_of (handler request s).0))
      × (served.1 ≡ verdict_state v (handler request s).1 s)
unfolding access_control security_headers
access_control-lan access_token handler request s h =
    let token = expected_token access_token in
    rw
      (
        h,
        ← is_foreign_post-the request,
        token_matches-the token request.query_token,
        token_matches-the token request.cookie_token,
      )
      (verified-Judged token handler request s (is_comparable token request.query_token)
        (is_comparable token request.cookie_token) (is_the token request.query_token)
        (is_the token request.cookie_token))
