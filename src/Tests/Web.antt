-- ===== src/Tests/Web.antt =====
-- A server with a digest that hides nothing, and requests to it.
use quicksurvey.Base.{
  ℕ, ◌+◌, ◌-◌, ltb, ◌⊎◌, ◌≡◌, refl, ap, if◌then◌else◌, false, not, ◌&&◌, Option, none, some, List,
  [], ◌∷◌, any, filter, Text, codes, same, text_discrete, trim_space, arith,
}
use quicksurvey.Accounts.{
  viewer, editor, admin, User, Accounts, find_user, at_least, rank, set_role, valid_role,
  update_user, count_other_admins,
}
use quicksurvey.Accounts.Resets.{create_reset}
use quicksurvey.Limiter.{Limiter, allow, admit, find_entry}
use quicksurvey.Web.{
  post, get, Request, Server, Site, Chance, Page, reply_with, text, users_post, index, form_value,
  find_cookie, unix,
}
use quicksurvey.Web.Sessions.{
  split_at, cut_at, session_cookie, session_ttl, voter_cookie, session_key, new_session, session_of,
  session_parts, session_user, csrf_token, check_csrf, verify_voter_token, signed_token,
}
use quicksurvey.Web.Sessions.Tokens.{IsFree, is_bound, session_user_lem}
use quicksurvey.Web.Clients.{client_key, limit_allow, issue_token, voter_token}
use quicksurvey.Web.Clients.Lasting.{voter_token-lasts}
use quicksurvey.Web.Gates.{gate, require_role, serve_http, is_https}
use quicksurvey.Web.Administration.{make_reset_link, change_account, handle_users_post}
use quicksurvey.Web.Routes.{posts, takes, path_of, handler, dispatch, serve}
use quicksurvey.Web.Routes.Entered.{Spares}
use quicksurvey.Web.Routes.Standing.{serve-Keeps}
use quicksurvey.Web.Gates.Passed.{IsActive}
use quicksurvey.Tests.Samples.{tables}
use quicksurvey.Tests.Limits.{two_tokens}

-- Bytes moved out of the way of the separators.
abbrev shifted : Text → Text
shifted [] = []
shifted (c ∷ cs) = (200 + c) ∷ shifted cs

shifted-injective : (t u : Text) → shifted t ≡ shifted u → t ≡ u
shifted-injective [] [] e = refl
shifted-injective [] (y ∷ u) e = absurd (ground arith)
shifted-injective (x ∷ t) [] e = absurd (ground arith)
shifted-injective (x ∷ t) (y ∷ u) e = ground (arith, shifted-injective t u (ground arith))

shifted-IsFree : (t : Text) → IsFree b'|' (shifted t)
unfolding any
shifted-IsFree [] = refl
shifted-IsFree (c ∷ cs) = ground (arith, shifted-IsFree cs)

-- The last of the parts.
abbrev pub digest : List Text → Text
digest [] = []
digest (t ∷ []) = shifted t
digest (t ∷ u ∷ ts) = digest (u ∷ ts)

digest-IsFree : (ts : List Text) → IsFree b'|' (digest ts)
unfolding any
digest-IsFree [] = refl
digest-IsFree (t ∷ []) = shifted-IsFree t
digest-IsFree (t ∷ u ∷ ts) = digest-IsFree (u ∷ ts)

abbrev unprinted : Text → Option ℕ
unprinted [] = none
unprinted (c ∷ cs) = some (c - 200)

printed-IsFree : (n : ℕ) → IsFree b'|' ((200 + n) ∷ [])
unfolding any
printed-IsFree n = ground arith

abbrev pub server : Server
server = record {
  secure_cookies = false;
  trust_proxy = false;
  redirect_https = false;
  base_url = [];
  rate = two_tokens;
  mac = digest;
  hash = λ salt password. password;
  verify = same;
  shuffle = λ seed os. os;
  print_nat = λ n. (200 + n) ∷ [];
  parse_int = unprinted;
  print_time = λ t. t ∷ [];
  parse_time = λ layout v. none;
  parse_duration = λ d. none;
  parse_url = λ u. none;
  escape = λ t. t;
  path_escape = λ t. t;
  same_fold = same;
  canonical_address = λ a. a;
  split_host_port = λ a. some a;
  format_time = λ t. [];
  print_ratio = λ r. [];
  quote = λ t. t;
  file = λ name. reply_with 200 Page.empty;
  no_pattern = λ req. reply_with 405 Page.empty;
  decode_header = λ b. none;
  decode_document = λ b. none;
}

abbrev root : User
root = record {
  name = codes "root";
  role = admin;
  hash = codes "secret";
  created = 1;
  must_change_password = false;
  pending = false;
  invited_by = [];
  sessions_from = 0;
}

abbrev bob : User
bob = record root { name = codes "bob"; role = viewer }

abbrev accounts : Accounts
accounts = record { users = root ∷ bob ∷ []; invites = []; resets = []; initial_password = none }

abbrev limits : Limiter two_tokens
limits = record { ttl = 10; max = 10; buckets = []; swept = 0 }

abbrev pub site : Site two_tokens
site = record {
  tables = tables;
  accounts = accounts;
  login_limit = some limits;
  voter_limit = some limits;
}

abbrev session : Text
session = new_session server root 5

-- Root makes bob an editor.
abbrev pub promotes : Request
promotes = record {
  method = post;
  route = users_post;
  path = codes "/admin/users";
  uri = codes "/admin/users";
  host = codes "h";
  tls = false;
  forwarded_proto = [];
  forwarded_host = [];
  real_ip = [];
  forwarded_for = [];
  remote_addr = codes "a";
  content_length = 0;
  form =
      (codes "csrf", digest (codes "csrf" ∷ session ∷ []))
      ∷ (codes "action", codes "role")
      ∷ (codes "username", codes "bob")
      ∷ (codes "role", codes "editor")
      ∷ [];
  file = none;
  cookies = (session_cookie, session) ∷ [];
}

abbrev pub chance : Chance
chance = record {
  now = 6;
  token = codes "0123456789abcdef";
  salt = [];
  id = λ i. i ∷ [];
  restore = record { survey = []; option = λ i. i ∷ []; response = λ i. i ∷ [] };
}

unfoldable pub web_program : Unit {0}
unfolding text_discrete filter any trim_space find_user at_least rank set_role valid_role
    update_user count_other_admins form_value find_cookie split_at cut_at session_key new_session
    session_of session_parts session_user csrf_token check_csrf verify_voter_token client_key
    limit_allow issue_token voter_token gate require_role serve_http is_https make_reset_link
    change_account handle_users_post posts takes path_of handler dispatch serve allow admit
    find_entry
web_program = tt

serve-Keeps_example :
    Spares server site (serve server site promotes chance) ⊎ IsActive server admin site promotes 6
unfolding path_of
serve-Keeps_example = serve-Keeps server site promotes chance refl

promoted :
    find_user (codes "bob") (serve server site promotes chance).1.accounts.users
    ≡ some (record bob { role = editor })
unfolding web_program
promoted = refl

session_user_lem_example : session_user server accounts 7 promotes ≡ (
    if not (ltb (unix (5 + session_ttl)) (unix 7)) && is_bound root root then some root else none)
unfolding web_program
session_user_lem_example =
    session_user_lem server (λ m n e. ground arith) (λ n. ap some (omega arith)) printed-IsFree
      digest-IsFree (λ body k l e. shifted-injective k l e) accounts root root 5 7 promotes refl
      refl refl refl refl refl

abbrev visit : Request
visit = record promotes { method = get; route = index; path = codes "/"; form = []; cookies = [] }

abbrev back : Request
back = record visit { cookies = (voter_cookie, signed_token server chance.token) ∷ [] }

voter_token-lasts_example :
    voter_token server (record site { voter_limit = none }) back chance ≡ record {
      token = (voter_token server site visit chance).token;
      cookies = [];
      site = record site { voter_limit = none };
    }
unfolding web_program
voter_token-lasts_example =
    voter_token-lasts server site (record site { voter_limit = none }) visit back chance chance refl
      (ground arith) (λ e. absurd (ground arith)) refl

-- A reset link for an account that is not there: the reply says nothing of the error.
abbrev asks : Request
asks = record promotes {
  form =
      (codes "csrf", digest (codes "csrf" ∷ session ∷ []))
      ∷ (codes "action", codes "reset-link")
      ∷ (codes "username", codes "eve")
      ∷ [];
}

lost_error :
    (serve server site asks chance).0.flash ≡ some (record { message = text []; is_error = false })
unfolding web_program create_reset
lost_error = refl
