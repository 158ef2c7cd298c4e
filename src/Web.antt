-- ===== src/Web.antt =====
-- internal/web: the requests that the server answers, what it answers, and what it keeps.
--
-- A request comes with the route that http.ServeMux chose for it, and with its form as the list of its
-- fields. A template's page is the data it is rendered with. `Server` holds the configuration and
-- what the handlers take from packages outside the repository; times are nanoseconds.
pub mod Sessions
pub mod Flashes
pub mod Setup
pub mod Clients
pub mod Gates
pub mod Respondents
pub mod Entry
pub mod Forms
pub mod Editing
pub mod Overview
pub mod Administration
pub mod Routes
use quicksurvey.Base.{
  ℕ, ◌/◌, if◌then◌else◌, Bool, true, false, Option, none, some, List, [], ◌∷◌, ◌++◌, Text, codes,
  same, Result, Error,
}
use quicksurvey.Survey.{SurveyOption, Survey}
use quicksurvey.Tables.{Tables}
use quicksurvey.Response.{Response}
use quicksurvey.Tally.{TallyRow, Ratio}
use quicksurvey.Accounts.{User, Invite, Reset, Accounts}
use quicksurvey.Limiter.{Rate, Limiter}
use quicksurvey.Documents.{Document}
use quicksurvey.Documents.Restore.{Draws}

pub data Method : Type 0 where
  get head post put : Method
  other : Text → Method

-- The patterns of `routes`, with their path values.
pub data Route : Type 0 where
  index health : Route
  static : (file : Text) → Route
  ballot vote write_in results : (id : Text) → Route
  invite_form invite_claim reset_form reset_submit : (token : Text) → Route
  login_form login logout pending password_form password_change : Route
  dashboard : Route
  admin_survey : (id : Text) → Route
  export save : (id kind : Text) → Route
  create restore : Route
  edit_form edit_save set_state moderate delete : (id : Text) → Route
  users users_post invites_post : Route

pub record Request : Type 0 where
  pub method : Method
  pub route : Route
  pub path : Text
  pub uri : Text
  pub host : Text
  pub tls : Bool
  pub forwarded_proto : Text
  pub forwarded_host : Text
  pub real_ip : Text
  pub forwarded_for : Text
  pub remote_addr : Text
  pub content_length : ℕ
  pub form : List (Text × Text)
  pub file : Option Text
  pub cookies : List (Text × Text)

-- `http.Cookie` as `cookie` builds it; a lifetime of 0 deletes it.
pub record Cookie : Type 0 where
  pub name : Text
  pub value : Text
  pub secure : Bool
  pub ttl : ℕ

pub data Message : Type 0 where
  text : Text → Message
  failure : Error → Message

pub record Flash : Type 0 where
  pub message : Message
  pub is_error : Bool

pub record BallotData : Type 0 where
  pub survey : Survey
  pub options : List SurveyOption
  pub selected : List Text
  pub comment : Text
  pub responded : Bool
  pub accepting : Bool
  pub preview : Bool
  pub results : List TallyRow
  pub voters : ℕ

pub record SurveyRow : Type 0 where
  pub survey : Survey
  pub responses : ℕ
  pub pending : ℕ
  pub url : Text
  pub overdue : Bool

pub record AdminSurveyData : Type 0 where
  pub row : SurveyRow
  pub results : List TallyRow
  pub voters : ℕ
  pub comments : List Response
  pub pending : List SurveyOption
  pub merge_into : List SurveyOption
  pub can_edit : Bool
  pub removed : List SurveyOption

pub record UsersData : Type 0 where
  pub users : List User
  pub pending : List User
  pub invites : List Invite
  pub now : ℕ
  pub new_invite : Text
  pub resets : List (Text × Reset)
  pub new_reset : Text
  pub new_reset_user : Text

pub data Page : Type 0 where
  empty home waiting : Page
  error : Message → Page
  login : (next name : Text) → Page
  password : Page
  invite : (token : Text) → Invite → (name : Text) → Page
  reset : (token : Text) → Reset → Page
  ballot results : BallotData → Page
  dashboard : List SurveyRow → Page
  admin_survey edit : AdminSurveyData → Page
  users : UsersData → Page
  tsv : List Text → Page
  line : Text → Page
  document : Document → Page

-- A flash is the cookie that carries a message over a redirect, or the message put on this page.
pub record Reply : Type 0 where
  pub status : ℕ
  pub location : Text
  pub cookies : List Cookie
  pub flash : Option Flash
  pub page : Page

pub record Url : Type 0 where
  pub scheme : Text
  pub host : Text
  pub opaque : Text
  pub path : Text

-- What one request draws at random, and the time it is handled at.
pub record Chance : Type 0 where
  pub now : ℕ
  pub token : Text
  pub salt : Text
  pub id : ℕ → Text
  pub restore : Draws

pub record Server : Type 1 where
  pub secure_cookies : Bool
  pub trust_proxy : Bool
  pub redirect_https : Bool
  pub base_url : Text
  pub rate : Rate
  pub mac : List Text → Text
  pub hash : (salt password : Text) → Text
  pub verify : Text → Text → Bool
  pub shuffle : Text → List SurveyOption → List SurveyOption
  pub print_nat : ℕ → Text
  pub parse_int : Text → Option ℕ
  pub print_time : ℕ → Text
  pub parse_time : (layout value : Text) → Option ℕ
  pub parse_duration : Text → Option ℕ
  pub parse_url : Text → Option Url
  pub escape : Text → Text
  pub path_escape : Text → Text
  pub same_fold : Text → Text → Bool
  pub canonical_address : Text → Text
  pub split_host_port : Text → Option Text
  pub format_time : ℕ → Text
  pub print_ratio : Ratio → Text
  pub quote : Text → Text
  pub file : (name : Text) → Reply
  pub no_pattern : Request → Reply
  pub decode_header : Text → Option (Text × ℕ)
  pub decode_document : Text → Option Document

pub record Site (rate : Rate) : Type 0 where
  pub tables : Tables
  pub accounts : Accounts
  pub login_limit : Option (Limiter rate)
  pub voter_limit : Option (Limiter rate)

-- `FormValue` and the values of one field.
unfoldable pub form_value : List (Text × Text) → Text → Text
form_value [] name = []
form_value ((k, v) ∷ form) name = if same k name then v else form_value form name

unfoldable pub form_values : List (Text × Text) → Text → List Text
form_values [] name = []
form_values ((k, v) ∷ form) name =
    let rest = form_values form name in if same k name then v ∷ rest else rest

-- `r.Cookie`
unfoldable pub find_cookie : Text → List (Text × Text) → Option Text
find_cookie name [] = none
find_cookie name ((k, v) ∷ cs) = if same k name then some v else find_cookie name cs

abbrev pub reply_with : ℕ → Page → Reply
reply_with status page = record {
  status = status;
  location = [];
  cookies = [];
  flash = none;
  page = page;
}

abbrev pub fail : ℕ → Message → Reply
fail status m = reply_with status (error m)

abbrev pub redirect : ℕ → Text → Reply
redirect status location = record (reply_with status empty) { location = location }

abbrev pub see_other : Text → Reply
see_other location = redirect 303 location

abbrev pub with_flash : Message → Bool → Reply → Reply
with_flash m is_error r = record r { flash = some (record { message = m; is_error = is_error }) }

abbrev pub says : Text → Reply → Reply
says t r = with_flash (text t) false r

abbrev pub complains : Message → Reply → Reply
complains m r = with_flash m true r

abbrev pub set_cookie : Cookie → Reply → Reply
set_cookie c r = record r { cookies = r.cookies ++ (c ∷ []) }

-- Seconds since the epoch.
abbrev pub unix : ℕ → ℕ
unix t = t / 1_000_000_000
