-- ===== src/Api/Responses/Pages.antt =====
-- The answers to lists: pages, and never a value for an error.
use job_board.Prelude.{
  ℕ, ◌+◌, ◌-◌, ◌*◌, ◌/◌, ◌%◌, ◌≤◌, ◌<◌, ◌≡◌, refl, sym, ap, ◌∙◌, Bool, true, false, List, Option,
  none, some, ltb, arith, inl, inr, Bool-cases,
}
use native.Mathlib.Nat.{mul_comm, div-add-mod, mod-lt}
use job_board.Text.{Text}
use job_board.Domain.Types.{
  ErrorDetail, Result, ok, err, DomainError, is_not_found, is_unsupported_media_type,
}
use job_board.Api.Responses.{
  Response, answer, no_content, failure, missing, Cases, by_message, by_details, is_conflict,
  validation_details, respond_error, Paginated, total_pages, respond_page,
}

-- A page of a list: its number and its limit are positive, the limit is at most 100, and the number
-- of pages is the least that holds all items.
pub record IsPage {A : Type 0} (p : Paginated A) : Type 0 where
  pub first : 1 ≤ p.page
  pub low : 1 ≤ p.limit
  pub high : p.limit ≤ 100
  pub enough : p.total_items ≤ p.total_pages * p.limit
  pub least : p.total_pages * p.limit < p.total_items + p.limit

total_pages_lem :
    (total limit : ℕ)
    → 1 ≤ limit
    → (total ≤ total_pages total limit * limit) × (total_pages total limit * limit < total + limit)
unfolding total_pages
total_pages_lem total limit h = elim (Bool-cases (ltb 0 total)) [
  | inl some_items ↦
      let n = total + limit - 1 in
      let swap = mul_comm (n / limit) limit in
      let whole = div-add-mod n limit in
      let rest : n % limit < limit = mod-lt n h in
      let positive : 0 < total = ground arith in
      rw some_items
        (omega (arith, swap, whole, rest, positive), omega (arith, swap, whole, rest, positive))
  | inr no_items ↦
      let zero_items : total ≡ 0 = ground arith in
      rw no_items (omega (arith, zero_items), omega (arith, zero_items))
]

total_pages_of :
    (total pages p_limit limit : ℕ)
    → 1 ≤ limit
    → p_limit ≡ limit
    → pages ≡ total_pages total limit
    → (total ≤ pages * p_limit) × (pages * p_limit < total + p_limit)
total_pages_of total pages p_limit limit h e f = rw (e, f) (total_pages_lem total limit h)

-- The page of an answer, with the number and the limit that were read.
pub Paginated-IsPage :
    {A : Type 0} (p : Paginated A) (page limit : ℕ)
    → 1 ≤ page
    → (1 ≤ limit) × (limit ≤ 100)
    → p.page ≡ page
    → p.limit ≡ limit
    → p.total_pages ≡ total_pages p.total_items limit
    → IsPage p
Paginated-IsPage p page limit h (low, high) e f q =
    let (enough, least) = total_pages_of p.total_items p.total_pages p.limit limit low f q in
    record {
      first = omega (arith, e, h);
      low = omega (arith, f, low);
      high = omega (arith, f, high);
      enough = enough;
      least = least;
    }

-- Whether a response has a value.
abbrev pub is_answer : {A : Type 0} → Response A → Bool
is_answer (answer status location a) = true
is_answer no_content = false
is_answer (failure status code message details) = false

module _ {A : Type 0} where
  by_message-fails :
      (test : Bool) (message : Option Text) (give : Text → Response A) (rest : Response A)
      → ((t : Text) → is_answer (give t) ≡ false)
      → is_answer rest ≡ false
      → is_answer (by_message test message give rest) ≡ false
  by_message-fails test none give rest f h = h
  by_message-fails true (some message) give rest f h = f message
  by_message-fails false (some message) give rest f h = h

  by_details-fails :
      (validates : Bool) (details : Option (List ErrorDetail)) (rest : Response A)
      → is_answer rest ≡ false
      → is_answer (by_details validates details rest) ≡ false
  by_details-fails validates none rest h = h
  by_details-fails true (some details) rest h = refl
  by_details-fails false (some details) rest h = h

-- An error never gives a value.
pub respond_error-fails :
    (B : Type 0) (cases : Cases) (e : DomainError)
    → is_answer {A = B} (respond_error cases e) ≡ false
unfolding respond_error
respond_error-fails B cases e =
    by_message-fails (is_not_found e) cases.not_found_message missing _ (λ t. refl)
      (by_message-fails (is_conflict e) cases.conflict_message _ _ (λ t. refl)
        (by_message-fails (is_unsupported_media_type e) cases.media_message _ _ (λ t. refl)
          (by_details-fails cases.validates (validation_details e) _ refl)))

module _ {A : Type 0} where
  pub respond_page-answer :
      (cases : Cases) (page limit : ℕ) (result : Result (List A × ℕ)) (status : ℕ)
      (location : Option Text) (p : Paginated A)
      → respond_page cases page limit result ≡ answer status location p
      → (result ≡ ok (p.items, p.total_items))
        × (p.page ≡ page)
        × (p.limit ≡ limit)
        × (p.total_pages ≡ total_pages p.total_items limit)
  unfolding respond_page
  respond_page-answer cases page limit (ok (items, total)) status location p e =
      let same : record {
        items = items;
        page = page;
        limit = limit;
        total_items = total;
        total_pages = total_pages total limit;
      }
          ≡ p =
        cc in
      rw (← same) (refl, refl, refl, refl)
  respond_page-answer cases page limit (err x) status location p e =
      let bad = respond_error-fails (Paginated A) cases x in cc (sym bad ∙ ap is_answer e)
