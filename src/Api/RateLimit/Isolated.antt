-- ===== src/Api/RateLimit/Isolated.antt =====
-- Each address has a bucket of its own.
use job_board.Prelude.{
  ℕ, ◌≡◌, refl, ap, ◌∙◌, Bool, true, false, List, [], ◌∷◌, Option, none, some, find, inl, inr,
  Bool-cases,
}
use job_board.Text.{Text, text_eq}
use job_board.Text.Equality.{text_eq_sound, text_eq_refl}
use job_board.Api.RateLimit.{
  Visitor, IpRateLimiter, has_ip, change_visitor, found_limiter, get_limiter, allow_from, allow,
}

-- The bucket of the visitor that was found, or a new one.
abbrev pub bucket_of : {L : Type 0} → L → Option (Visitor L) → L
bucket_of fresh none = fresh
bucket_of fresh (some v) = v.limiter

-- The buckets by address; an address that is not in the map has a new one.
abbrev pub bucket : {L : Type 0} → L → IpRateLimiter L → Text → L
bucket fresh l ip = bucket_of fresh (find (has_ip ip) l.visitors)

abbrev changed : {L : Type 0} → (Visitor L → Visitor L) → Option (Visitor L) → Option (Visitor L)
changed g none = none
changed g (some v) = some (g v)

module _ {L : Type 0} (ip : Text) (g : Visitor L → Visitor L)
    (keeps : (v : Visitor L) → (g v).ip ≡ v.ip) where
  find-change_visitor :
      (vs : List (Visitor L))
      → find (has_ip ip) (change_visitor ip g vs) ≡ changed g (find (has_ip ip) vs)
  find-change_visitor [] = refl
  find-change_visitor (v ∷ vs) = elim (Bool-cases (has_ip ip v)) [
    | inl here ↦ let there : has_ip ip (g v) ≡ true = rw (keeps v) here in rw (here, there) refl
    | inr apart ↦ rw apart (rw apart (find-change_visitor vs))
  ]

  find-change_visitor_ne :
      (other : Text) (vs : List (Visitor L))
      → text_eq ip other ≡ false
      → find (has_ip other) (change_visitor ip g vs) ≡ find (has_ip other) vs
  find-change_visitor_ne other [] n = refl
  find-change_visitor_ne other (v ∷ vs) n = elim (Bool-cases (has_ip ip v)) [
    | inl here ↦
        let e : v.ip ≡ ip = text_eq_sound v.ip ip here in
        let skip : has_ip other v ≡ false = rw e n in
        let skipped : has_ip other (g v) ≡ false = rw (keeps v) skip in
        rw (here, skip, skipped) (find-change_visitor_ne other vs n)
    | inr apart ↦ rw apart (rw (find-change_visitor_ne other vs n) refl)
  ]

-- What a request of one address does to the buckets of all.
pub record IsTaken {L : Type 0} (fresh : L) (take : L → ℕ → Bool × L) (ip : Text) (now : ℕ)
    (l : IpRateLimiter L) (result : Bool × IpRateLimiter L) : Type 0 where
  pub decided : result.0 ≡ (take (bucket fresh l ip) now).0
  pub own : bucket fresh result.1 ip ≡ (take (bucket fresh l ip) now).1
  pub others :
      (other : Text) → text_eq ip other ≡ false → bucket fresh result.1 other ≡ bucket fresh l other

module _ {L : Type 0} (fresh : L) (take : L → ℕ → Bool × L) where
  allow_from-IsTaken :
      (ip : Text) (now : ℕ) (l : IpRateLimiter L) (found : Option (Visitor L))
      → find (has_ip ip) l.visitors ≡ found
      → IsTaken fresh take ip now l
          (allow_from fresh take ip now (found_limiter fresh ip now l found))
  allow_from-IsTaken ip now l none e =
      let new : Visitor L = record { ip = ip; limiter = fresh; last_seen = now } in
      let spend : Visitor L → Visitor L = λ v. record v { limiter = (take fresh now).1 } in
      let vs = new ∷ l.visitors in
      record {
        decided = rw e refl;
        own =
            ap (bucket_of fresh) (find-change_visitor ip spend (λ v. refl) vs)
            ∙ rw (text_eq_refl ip, e) refl;
        others = λ other n.
            ap (bucket_of fresh) (find-change_visitor_ne ip spend (λ v. refl) other vs n)
            ∙ rw n refl;
      }
  allow_from-IsTaken ip now l (some v) e =
      let touch : Visitor L → Visitor L = λ v. record v { last_seen = now } in
      let spend : Visitor L → Visitor L = λ x. record x { limiter = (take v.limiter now).1 } in
      let vs = change_visitor ip touch l.visitors in
      let seen = find-change_visitor ip touch (λ v. refl) l.visitors in
      record {
        decided = rw e refl;
        own =
            ap (bucket_of fresh)
              (find-change_visitor ip spend (λ v. refl) vs ∙ ap (changed spend) seen)
            ∙ rw e refl;
        others = λ other n. ap (bucket_of fresh) (
            find-change_visitor_ne ip spend (λ v. refl) other vs n
            ∙ find-change_visitor_ne ip touch (λ v. refl) other l.visitors n);
      }

  -- Allow for an address is decided by the bucket of that address, a new one where it is not known,
  -- takes from this bucket, and leaves the bucket of every other address as it was.
  pub allow-IsTaken :
      (ip : Text) (now : ℕ) (l : IpRateLimiter L)
      → IsTaken fresh take ip now l (allow fresh take ip now l)
  unfolding allow get_limiter
  allow-IsTaken ip now l = allow_from-IsTaken ip now l (find (has_ip ip) l.visitors) refl
