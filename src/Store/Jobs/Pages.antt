-- ===== src/Store/Jobs/Pages.antt =====
-- The pages of List, each read by a query of its own.
use mathlib.Core.List.{Perm}
use mathlib.Core.List.Perm
use job_board.Prelude.{
  ℕ, zero, suc, ◌+◌, ◌-◌, ◌*◌, ◌%◌, ◌≤◌, ◌<◌, ◌≡◌, refl, sym, ap, ◌∙◌, true, List, [], ◌∷◌, ◌++◌,
  none, filter, take, drop, length, arith,
}
use job_board.Prelude.Int.{pos}
use job_board.Domain.Types.{Job, JobListFilter, Result, ok, err}
use job_board.Service.Paging.{page_of, limit_of}
use job_board.Store.Database.{Database, Postgres, rows}
use job_board.Store.Jobs.Newest.{NewestFirst, newest_unique, length_le_of_Perm}
use job_board.Store.Jobs.{slice, page_rows, matches_filter, filter_fits, list_rows}

take-nil {ℓ} : {A : Type ℓ} (n : ℕ) → ◌≡◌ {A = List A} (take n []) []
take-nil zero = refl
take-nil (suc n) = refl

take-add {ℓ} :
    {A : Type ℓ} (m n : ℕ) (xs : List A) → take m xs ++ take n (drop m xs) ≡ take (m + n) xs
take-add zero n xs = let e : n ≡ 0 + n = omega arith in ap (λ k. take k xs) e
take-add (suc m) n [] = take-nil n ∙ sym (take-nil (suc m + n))
take-add (suc m) n (x ∷ xs) =
    let e : suc (m + n) ≡ suc m + n = omega arith in
    ap (λ ys. x ∷ ys) (take-add m n xs) ∙ ap (λ k. take k (x ∷ xs)) e

take-all {ℓ} : {A : Type ℓ} (n : ℕ) (xs : List A) → length xs ≤ n → take n xs ≡ xs
take-all n [] h = take-nil n
take-all zero (x ∷ xs) h = absurd (omega arith)
take-all (suc n) (x ∷ xs) h = ap (λ ys. x ∷ ys) (take-all n xs (omega arith))

page_of-suc : (p : ℕ) → page_of (pos (suc p)) ≡ pos (suc p)
unfolding page_of
page_of-suc p = ground arith

page_rows_lem :
    {A : Type 0} (p l : ℕ) (xs : List A)
    → p * l < 9223372036854775808
    → page_rows (suc p) l xs ≡ rows (slice (p * l) l xs)
unfolding page_rows
page_rows_lem p l xs h =
    let offset : (suc p - 1) * l % 18446744073709551616 ≡ p * l =
      let same : suc p - 1 ≡ p = omega arith in rw same (omega arith) in
    rw offset (ground arith)

-- The rows of a page, and none where it fails.
abbrev rows_of : Result (List Job × ℕ) → List Job
rows_of (ok (xs, total)) = xs
rows_of (err e) = []

Job_set : IsSet Job
Job_set = hlevel

-- The database at the query of page p + 1, which gives its rows in the order of `order p`.
module _ (pg : Postgres) (order : ℕ → List Job → List Job) (f : JobListFilter) (db : Database) where
  abbrev at_query : ℕ → Postgres
  at_query p = record pg { order_jobs = order p }

  abbrev matching : List Job
  matching = filter (matches_filter pg f) db.jobs

  page_lem :
      (l p : ℕ)
      → pg.fault ≡ none
      → filter_fits pg f ≡ true
      → limit_of f.limit ≡ pos l
      → p * l < 9223372036854775808
      → list_rows (at_query p) (record f { page = pos (suc p) }) db
        ≡ ok (slice (p * l) l (order p matching), length matching)
  unfolding list_rows matches_filter
  page_lem l p up fits lim h =
      let below = page_rows_lem p l (order p matching) h in
      rw (up, fits, page_of-suc p, lim, below) refl

  -- The pages 1 to `n`, one after the other.
  abbrev pub pages : ℕ → List Job
  pages zero = []
  pages (suc p) = pages p ++ rows_of (list_rows (at_query p) (record f { page = pos (suc p) }) db)

  pages-eq-take :
      (l n : ℕ) (listing : List Job)
      → pg.fault ≡ none
      → filter_fits pg f ≡ true
      → limit_of f.limit ≡ pos l
      → ((p : ℕ) → order p matching ≡ listing)
      → n * l < 9223372036854775808
      → pages n ≡ take (n * l) listing
  pages-eq-take l zero listing up fits lim alike h =
      let e : 0 ≡ 0 * l = omega arith in ap (λ k. take k listing) e
  pages-eq-take l (suc p) listing up fits lim alike h =
      let here : p * l < 9223372036854775808 = omega arith in
      let this = page_lem l p up fits lim here in
      let e : p * l + l ≡ suc p * l = omega arith in
      rw (pages-eq-take l p listing up fits lim alike here, this, alike p)
        (take-add (p * l) l listing ∙ ap (λ k. take k listing) e)

  -- The pages 1 to n of List, each read by a query of its own in an unchanged database, hold every
  -- matching job exactly once, from the newest to the oldest, provided that the database answers, the
  -- enumerations of the filter exist, each query sorts the matching jobs by created_at, the newest
  -- first, no two of them have the same created_at, n pages with the limit of the filter are enough
  -- for all of them, and n times the limit is below 2^63.
  pub pages-Perm :
      (l n : ℕ)
      → pg.fault ≡ none
      → filter_fits pg f ≡ true
      → limit_of f.limit ≡ pos l
      → ((p : ℕ) → Perm (order p matching) matching)
      → ((p : ℕ) → NewestFirst (λ job. job.created_at) (order p matching))
      → length matching ≤ n * l
      → n * l < 9223372036854775808
      → Perm (pages n) matching × NewestFirst (λ job. job.created_at) (pages n)
  pages-Perm l n up fits lim same_rows sorted enough h =
      let listing = order 0 matching in
      let alike : (p : ℕ) → order p matching ≡ listing = λ p.
        newest_unique (λ job. job.created_at) Job_set _ _ (sorted p) (sorted 0)
          (Perm.trans (same_rows p) (Perm.symm (same_rows 0))) in
      let holds = length_le_of_Perm listing matching (n * l) (same_rows 0) enough in
      let all = pages-eq-take l n listing up fits lim alike h ∙ take-all (n * l) listing holds in
      rw all (same_rows 0, sorted 0)
