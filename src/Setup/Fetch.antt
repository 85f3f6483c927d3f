-- ===== src/Setup/Fetch.antt =====
-- scripts/agent-setup.py: `fetch` and `HTTPSRedirect`. The time budget of `download_deadline` and
-- the operator's Ctrl+C reach an attempt as its trouble.
pub mod Bounds
pub mod Retry
use Prim.Native.Nat.{min}
use see_size.Base.{
  ℕ, zero, suc, ◌+◌, ◌-◌, ◌*◌, ◌==◌, nat_eq, string_eq, String, Bool, true, false, not, Option,
  none, some, List, [], ◌∷◌, ◌++◌, if◌then◌else◌, ltb, leb, contains, length, take, drop,
}
use see_size.Fs.{Bytes}
use see_size.Script.{
  Machine, Url, Trouble, http_error, tls_error, network_error, deadline, cancelled, Length, absent,
  malformed, negative, size, Attempt, refused, answered, Exc, value_error, interrupt, Action,
  Result, ok, err, pure, raise, ◌>>=◌, ◌>>◌, raise_if,
}
use see_size.Setup.{download_attempts}

-- `response.read1(n)`: bytes of the next chunk that has come, at most n.
read1 : ℕ → List Bytes → Bytes × List Bytes
read1 n [] = ([], [])
read1 n (c ∷ cs) = (take n c, if leb (length c) n then cs else drop n c ∷ cs)

pub data Received : Type 0 where
  whole : Bytes → Received
  over_limit unfinished : Received
  cut : Trouble → Received

abbrev at_end : Option Trouble → Bytes → Received
at_end none body = whole body
at_end (some t) body = cut t

-- The loop over `read1`, with fuel; an empty read ends it.
pub receive : ℕ → ℕ → Option Trouble → List Bytes → Bytes → Received
receive zero limit ending chunks body = unfinished
receive (suc fuel) limit ending [] body = at_end ending body
receive (suc fuel) limit ending (c ∷ cs) body =
    let (chunk, rest) = read1 (min (64 * 1024) (limit + 1 - length body)) (c ∷ cs) in
    let body' = body ++ chunk in
    let more = receive fuel limit ending rest body' in
    if length chunk == 0 then whole body else if ltb limit (length body') then over_limit else more

-- How an attempt ends: with the bytes, with an exception, or with a retry.
pub data Tried : Type 0 where
  got : Bytes → Tried
  failed : Exc → Tried
  again : Tried

on_trouble : Trouble → Tried
on_trouble (http_error code) =
    if contains (408 ∷ 429 ∷ 500 ∷ 502 ∷ 503 ∷ 504 ∷ []) code
    then again
    else failed (value_error "Download rejected; check release availability")
on_trouble tls_error = failed (value_error "TLS certificate verification failed; not bypassed")
on_trouble network_error = again
on_trouble deadline =
    failed (value_error "Download total time limit reached; retry later or use a trusted --bundle")
on_trouble cancelled = failed interrupt

abbrev expects : Length → ℕ → Bool
expects (size n) k = k == n
expects _ k = true

on_received : Length → Received → Tried
on_received header (whole body) = if expects header (length body) then got body else again
on_received header over_limit = failed (value_error "Download exceeds size limit")
on_received header unfinished = again
on_received header (cut t) = on_trouble t

-- `total < 0 or total > limit`, or `int` raises.
abbrev bad_length : ℕ → Length → Bool
bad_length limit absent = false
bad_length limit malformed = true
bad_length limit negative = true
bad_length limit (size n) = ltb limit n

pub try_once : ℕ → Attempt → Tried
try_once limit (refused t) = on_trouble t
try_once limit (answered header chunks ending) =
    if bad_length limit header
    then failed (value_error "Download exceeds size limit or invalid Content-Length")
    else on_received header (receive (limit + 2) limit ending chunks [])

abbrev pub is_https : Option Url → Bool
is_https none = false
is_https (some u) = u.scheme == "https"

-- After an attempt: return, give up, or go on.
settle : Action Bytes → Tried → Action Bytes
settle next (got body) = pure body
settle next (failed e) = raise e
settle next again = next

module _ (m : Machine) where
  attempt : String → Action Attempt
  attempt url w = (ok (m.download w.tick url), record w { tick = suc w.tick })

  -- The attempts that are left; the last one's failure ends the download.
  fetch_loop : ℕ → String → ℕ → Action Bytes
  fetch_loop zero url limit =
      raise
        (value_error "Download failed after limited retries; retry later or use a trusted --bundle")
  fetch_loop (suc n) url limit = do
    a ← attempt url
    settle (fetch_loop n url limit) (try_once limit a)

  unfoldable pub fetch : String → ℕ → Action Bytes
  unfolding fetch_loop settle attempt try_once on_received on_trouble receive read1
  fetch url limit = do
    raise_if (not (is_https (m.urlsplit url))) (value_error "HTTPS required")
    fetch_loop download_attempts url limit

  -- `HTTPSRedirect.redirect_request`
  unfoldable pub redirect_request : String → Result String
  redirect_request newurl =
      if is_https (m.urlsplit newurl)
      then ok newurl
      else err (value_error "Refusing HTTPS downgrade")
