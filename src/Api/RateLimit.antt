-- ===== src/Api/RateLimit.antt =====
-- internal/api/middleware/ratelimit.go. A token bucket of golang.org/x/time/rate is of any type `L`;
-- `fresh` is the new one, and `take` is its Allow at a time. A time is a number of nanoseconds. Each
-- operation holds the lock; the cleanup loop calls `cleanup` now and then.
pub mod Isolated
use job_board.Prelude.{
  ℕ, ◌-◌, Bool, true, false, not, ◌&&◌, List, [], ◌∷◌, Option, none, some, ltb, ◌==◌, if◌then◌else◌,
  filter, find, map,
}
use job_board.Text.{Text, txt, text_eq, trim_space}
use job_board.Api.Responses.{Response, failure}

pub record Visitor (L : Type 0) : Type 0 where
  pub ip : Text
  pub limiter : L
  pub last_seen : ℕ

-- `IPRateLimiter`: the map `visitors` is the list of its values, each with its key.
pub record IpRateLimiter (L : Type 0) : Type 0 where
  pub visitors : List (Visitor L)
  pub visitor_ttl : ℕ

-- `NewIPRateLimiter`
unfoldable pub new_ip_rate_limiter : {L : Type 0} → IpRateLimiter L
new_ip_rate_limiter = record { visitors = []; visitor_ttl = 180000000000 }

abbrev pub has_ip : {L : Type 0} → Text → Visitor L → Bool
has_ip ip v = text_eq v.ip ip

abbrev pub change_visitor :
    {L : Type 0} → Text → (Visitor L → Visitor L) → List (Visitor L) → List (Visitor L)
change_visitor ip change = map (λ v. if has_ip ip v then change v else v)

-- `Cleanup`
unfoldable pub cleanup : {L : Type 0} → ℕ → IpRateLimiter L → IpRateLimiter L
cleanup now l = record l {
  visitors = filter (λ v. not (ltb l.visitor_ttl (now - v.last_seen))) l.visitors;
}

module _ {L : Type 0} (fresh : L) where
  abbrev pub found_limiter : Text → ℕ → IpRateLimiter L → Option (Visitor L) → L × IpRateLimiter L
  found_limiter ip now l none = (
    fresh,
    record l { visitors = record { ip = ip; limiter = fresh; last_seen = now } ∷ l.visitors },
  )
  found_limiter ip now l (some v) = (
    v.limiter,
    record l { visitors = change_visitor ip (λ v. record v { last_seen = now }) l.visitors },
  )

  -- `GetLimiter`
  unfoldable pub get_limiter : Text → ℕ → IpRateLimiter L → L × IpRateLimiter L
  get_limiter ip now l = found_limiter ip now l (find (has_ip ip) l.visitors)

  module _ (take : L → ℕ → Bool × L) where
    abbrev pub allow_from : Text → ℕ → L × IpRateLimiter L → Bool × IpRateLimiter L
    allow_from ip now (limiter, l) =
        let taken = take limiter now in
        let spend : Visitor L → Visitor L = λ v. record v { limiter = taken.1 } in
        (taken.0, record l { visitors = change_visitor ip spend l.visitors })

    -- `Allow`: the limiter that the map points to changes as its bucket does.
    unfoldable pub allow : Text → ℕ → IpRateLimiter L → Bool × IpRateLimiter L
    unfolding get_limiter
    allow ip now l = allow_from ip now (get_limiter ip now l)

    -- `Handler`: the refusal, or none where the next handler is called.
    unfoldable pub handle :
        {A : Type 0} → Text → ℕ → IpRateLimiter L → Option (Response A) × IpRateLimiter L
    unfolding allow
    handle ip now l =
        let allowed = allow ip now l in
        (
          if not allowed.0
              then some (
                  failure 429 (txt "RATE_LIMIT_EXCEEDED")
                    (txt
                      "Rate limit burst or requests per second exceeded. Please try again later.")
                    [])
              else none,
          allowed.1,
        )

-- The part before the first comma.
unfoldable pub before_comma : Text → Text
before_comma [] = []
before_comma (c ∷ s) = let rest = before_comma s in if c == b',' then [] else c ∷ rest

abbrev known_host : Text → Option Text → Text
known_host remote_addr none = trim_space remote_addr
known_host remote_addr (some host) =
    if not (text_eq host (txt "")) then host else trim_space remote_addr

-- `getIP`, from RemoteAddr, the host that net.SplitHostPort finds in it, and the two headers.
unfoldable pub get_ip : Text → Option Text → Text → Text → Text
unfolding before_comma
get_ip remote_addr host forwarded_for real_ip =
    let first = trim_space (before_comma forwarded_for) in
    if not (text_eq remote_addr (txt ""))
    then known_host remote_addr host
    else if not (text_eq forwarded_for (txt "")) && not (text_eq first (txt ""))
    then first
    else if not (text_eq real_ip (txt ""))
    then trim_space real_ip
    else txt "127.0.0.1"
