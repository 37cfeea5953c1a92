-- ===== src/Api/Queries.antt =====
-- The query strings of the lists: parseJobListQuery of internal/api/v1/public.go, and
-- parseAdminJobListQuery and parseApplicationListQuery of internal/api/v1/admin.go. `query` gives the
-- first value of a parameter, and the empty text where there is none.
pub mod Bounds
use job_board.Prelude.{
  ℕ, ◌+◌, ◌-◌, ◌*◌, ◌≤◌, ◌≡◌, refl, Bool, true, false, not, ◌&&◌, ◌||◌, List, [], ◌∷◌, ◌++◌, Option,
  none, some, ltb, leb, ◌==◌, if◌then◌else◌, arith, inl, inr, Bool-cases,
}
use job_board.Prelude.Int.{ℤ, pos, negsuc}
use job_board.Text.{Text, txt, text_eq, trim_space, is_digit}
use job_board.Domain.Types.{ErrorDetail, JobListFilter, ApplicationListFilter}
use job_board.Domain.Formats.{is_valid_employment_type, is_valid_job_status, is_valid_stage}
use job_board.Domain.Report.{report, report_if}

-- The number that decimal digits, at least one, stand for, after those read as `n`.
unfoldable pub digits_value : ℕ → Text → Option ℕ
digits_value n [] = some n
digits_value n (c ∷ s) =
    let rest = digits_value (n * 10 + (c - 48)) s in if is_digit c then rest else none

abbrev unsigned : Text → Option ℕ
unsigned [] = none
unsigned (c ∷ s) = digits_value 0 (c ∷ s)

abbrev positive : Option ℕ → Option ℤ
positive none = none
positive (some n) = if ltb n 9223372036854775808 then some (pos n) else none

abbrev negative : Option ℕ → Option ℤ
negative none = none
negative (some n) =
    if n == 0
    then some (pos 0)
    else if leb n 9223372036854775808
    then some (negsuc (n - 1))
    else none

-- `strconv.Atoi`
unfoldable pub atoi : Text → Option ℤ
unfolding digits_value
atoi [] = none
atoi (c ∷ s) =
    if c == b'-'
    then negative (unsigned s)
    else if c == b'+'
    then positive (unsigned s)
    else positive (unsigned (c ∷ s))

-- A positive number, or what is reported.
abbrev pub at_least_one : Text → Text → Option ℤ → ℕ → ℕ × List ErrorDetail
at_least_one field issue none default = (default, report field issue)
at_least_one field issue (some (negsuc n)) default = (default, report field issue)
at_least_one field issue (some (pos n)) default =
    if ltb n 1 then (default, report field issue) else (n, [])

unfoldable pub parse_page : Text → ℕ × List ErrorDetail
unfolding atoi
parse_page s =
    if text_eq (trim_space s) (txt "")
    then (1, [])
    else at_least_one (txt "page") (txt "page must be a positive integer") (atoi (trim_space s)) 1

abbrev pub capped : ℕ × List ErrorDetail → ℕ × List ErrorDetail
capped (n, details) = (if ltb 100 n then 100 else n, details)

unfoldable pub parse_limit : Text → ℕ × List ErrorDetail
unfolding atoi
parse_limit s =
    if text_eq (trim_space s) (txt "")
    then (20, [])
    else capped (
        at_least_one (txt "limit") (txt "limit must be a positive integer") (atoi (trim_space s))
          20)

-- A value of an enumeration, or none.
unfoldable pub parse_choice : (Text → Bool) → Text → Text → Text → Text × List ErrorDetail
parse_choice valid field issue s =
    let value = trim_space s in
    if text_eq value (txt "")
    then (txt "", [])
    else if valid value
    then (value, [])
    else (txt "", report field issue)

abbrev parse_employment_type : Text → Text × List ErrorDetail
parse_employment_type =
    parse_choice is_valid_employment_type (txt "employment_type")
      (txt "Invalid employment_type. Must be one of: full_time, part_time, contract, internship")

-- `parseJobListQuery`
unfoldable pub parse_job_list_query : (Text → Text) → JobListFilter × List ErrorDetail
unfolding parse_choice parse_page parse_limit
parse_job_list_query query =
    let employment_type = parse_employment_type (query (txt "employment_type")) in
    let page = parse_page (query (txt "page")) in
    let limit = parse_limit (query (txt "limit")) in
    (
      record {
        department = trim_space (query (txt "department"));
        location = trim_space (query (txt "location"));
        employment_type = employment_type.0;
        status = txt "";
        page = pos page.0;
        limit = pos limit.0;
      },
      employment_type.1 ++ (page.1 ++ limit.1),
    )

-- `parseAdminJobListQuery`
unfoldable pub parse_admin_job_list_query : (Text → Text) → JobListFilter × List ErrorDetail
unfolding parse_job_list_query parse_choice
parse_admin_job_list_query query =
    let status =
      parse_choice is_valid_job_status (txt "status")
        (txt "Invalid status. Must be one of: draft, published, archived") (query (txt "status")) in
    let rest = parse_job_list_query query in
    (record (rest.0) { status = status.0 }, status.1 ++ rest.1)

-- `parseApplicationListQuery`
unfoldable pub parse_application_list_query :
    (Text → Text) → ApplicationListFilter × List ErrorDetail
unfolding parse_choice parse_page parse_limit
parse_application_list_query query =
    let stage =
      parse_choice is_valid_stage (txt "stage")
        (txt
          "Invalid stage. Must be one of: applied, screening, interviewing, offer, hired, rejected")
        (query (txt "stage")) in
    let page = parse_page (query (txt "page")) in
    let limit = parse_limit (query (txt "limit")) in
    (
      record {
        job_id = txt "";
        stage = stage.0;
        candidate_email = trim_space (query (txt "candidate_email"));
        page = pos page.0;
        limit = pos limit.0;
      },
      stage.1 ++ (page.1 ++ limit.1),
    )
