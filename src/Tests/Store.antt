-- ===== src/Tests/Store.antt =====
-- The repositories over a small database that refuses nothing and keeps what it is given.
mod Jobs
mod Keys
mod Calls
use job_board.Prelude.{true, List, [], ◌∷◌, Option, none, some}
use job_board.Text.{Text, txt}
use job_board.Domain.Types.{Job, full_time, status_published}
use job_board.Store.TextArray.{value}
use job_board.Store.Database.{Database, Postgres}

-- Every text is a uuid, in the form in which it is written.
abbrev pub pg : Postgres
pg = record {
  fault = none;
  read_uuid = λ t. some t;
  refuses_job = λ row. none;
  refuses_application = λ row. none;
  refuses_stage = λ stage reason. none;
  refuses_note = λ row. none;
  refuses_key = λ row. none;
  refuses_subscription = λ row. none;
  read_array = λ t. some (txt "*" ∷ []);
  write_array = λ texts. value (some texts);
  numeric = λ x. x;
  ilike = λ t pattern. true;
  order_jobs = λ rows. rows;
  order_applications = λ rows. rows;
  order_notes = λ rows. rows;
  order_keys = λ rows. rows;
  order_subscriptions = λ rows. rows;
  order_texts = λ texts. texts;
}

abbrev pub empty : Database
empty = record { jobs = []; applications = []; notes = []; keys = []; subscriptions = [] }

abbrev pub job_id : Text
job_id = txt "6f9619ff-8b86-d011-b42d-00c04fc964ff"

abbrev pub job : Job
job = record {
  id = job_id;
  slug = txt "go-engineer";
  title = txt "Go Engineer";
  department = txt "Engineering";
  location = txt "Berlin";
  employment_type = full_time;
  experience_level = none;
  salary_min = none;
  salary_max = none;
  salary_currency = txt "USD";
  description_markdown = txt "Build";
  status = status_published;
  custom_fields = [];
  created_at = 0;
  updated_at = 0;
  published_at = some 7;
}
