-- ===== src/Tests/Opening.antt =====
-- Databases that are opened, one of them of a version whose users have no sign-out times.
use quicksurvey.Base.{
  ℕ, if◌then◌else◌, ok, same, subst, true, false, ◌+◌, ◌==◌, ◌≡◌, refl, any, Option, none, some,
  List, [], ◌∷◌, ◌++◌, All, length, Text, codes, text_discrete, arith,
}
use quicksurvey.Store.{frame, id_alphabet, char_at, new_id}
use quicksurvey.Store.Framing.{frame-injective}
use quicksurvey.Store.Ids.{is_id_char, giving, new_id-fair}
use quicksurvey.Store.Schema.{table_of, schema, added_columns}
use quicksurvey.Store.Schema.Migrated.{find_table, Covers, IsEarly, Widens}
use quicksurvey.Store.Schema.Extended.{IsCurrent}
use quicksurvey.Store.Opening.{Database, read_secret, open_store}
use quicksurvey.Store.Opening.Opened.{open_store-again}
use quicksurvey.Store.Opening.Rivals.{
  holding, opener, Shared, OpenReach, here, next, reads, read_step, openers-apart,
}
use quicksurvey.Accounts.{User, authenticate}
use quicksurvey.Accounts.Roster.{IsSafe}
use quicksurvey.Web.{Site}
use quicksurvey.Web.Setup.{ℤ, negsuc}
use quicksurvey.Commands.Serving.{Rates, start_server}
use quicksurvey.Commands.Serving.Ready.{start_server-ready}
use quicksurvey.Tests.Samples.{draft_tables}
use quicksurvey.Tests.Limits.{two_tokens}
use quicksurvey.Tests.Commands.{nobody}

abbrev old_users : List Text
old_users =
    codes "name"
    ∷ codes "role"
    ∷ codes "hash"
    ∷ codes "created"
    ∷ codes "must_change_password"
    ∷ codes "pending"
    ∷ codes "invited_by"
    ∷ []

abbrev old_database : Database
old_database = record {
  shape = table_of (codes "users") old_users ∷ [];
  tables = draft_tables;
  upgrade = record { done = false; through = [] };
  secret = none;
}

abbrev key_one : Text
key_one = codes "0123456789abcdef0123456789abcdef"

abbrev key_two : Text
key_two = codes "fedcba9876543210fedcba9876543210"

early : All (IsEarly added_columns old_database.shape) schema
unfolding find_table any text_discrete
early = (
  (λ cs e. absurd (ground arith)),
  (
    (λ cs e.
        let users : old_users ≡ cs = ground arith in
        subst
          (Covers added_columns
            (table_of (codes "users") (old_users ++ (codes "sessions_from" ∷ []))))
          users (refl, (refl, (refl, (refl, (refl, (refl, (refl, (refl, tt))))))))),
    (
      (λ cs e. absurd (ground arith)),
      (
        (λ cs e. absurd (ground arith)),
        (
          (λ cs e. absurd (ground arith)),
          (
            (λ cs e. absurd (ground arith)),
            (
              (λ cs e. absurd (ground arith)),
              ((λ cs e. absurd (ground arith)), ((λ cs e. absurd (ground arith)), tt)),
            ),
          ),
        ),
      ),
    ),
  ),
)

open_store-again_example :
    (later : Database) × (key : Text) × (open_store old_database key_one ≡ some (later, key))
    × IsCurrent later.shape
    × Widens old_database.shape later.shape
    × (later.upgrade.done ≡ true)
    × ((again : Text) → open_store later again ≡ some (later, key))
open_store-again_example = open_store-again old_database key_one early refl

abbrev two_waiting : Shared
two_waiting = record { stored = some key_one; openers = opener key_two ∷ opener [] ∷ [] }

abbrev one_open : Shared
one_open = record two_waiting {
  openers = record (opener key_two) { at = read_step (some key_one) } ∷ opener [] ∷ [];
}

openers-apart_example :
    OpenReach
      (record { stored = none; openers = opener key_one ∷ opener key_two ∷ [] })
      (record {
        stored = some key_two;
        openers =
            record (opener key_one) { at = holding key_one }
            ∷ record (opener key_two) { at = holding key_two }
            ∷ [];
      })
    × (read_step (some key_two) ≡ holding key_two)
unfolding read_secret
openers-apart_example = openers-apart none key_one key_two refl refl

abbrev digits : ℕ → Text
digits n = (200 + n) ∷ []

frame-injective_example :
    codes "voter" ∷ (codes "s" ++ codes "1") ∷ [] ≡ codes "voter" ∷ codes "s1" ∷ []
unfolding any
frame-injective_example =
    frame-injective digits (λ m n same_digits. ground arith) (λ n. ground arith)
      (codes "voter" ∷ (codes "s" ++ codes "1") ∷ []) (codes "voter" ∷ codes "s1" ∷ []) refl

framed :
    frame digits (codes "ab" ∷ codes "c" ∷ []) ≡ 202 ∷ b':' ∷ b'a' ∷ b'b' ∷ 201 ∷ b':' ∷ b'c' ∷ []
unfolding frame
framed = refl

new_id-fair_example :
    (length (new_id (0 ∷ 31 ∷ 255 ∷ [])) ≡ 3)
    × All (λ c. is_id_char c ≡ true) (new_id (0 ∷ 31 ∷ 255 ∷ []))
    × All (λ c. giving c 256 ≡ 8) id_alphabet
new_id-fair_example = new_id-fair (0 ∷ 31 ∷ 255 ∷ [])

drawn : new_id (0 ∷ 31 ∷ 255 ∷ []) ≡ codes "a99"
unfolding new_id char_at
drawn = refl

abbrev read_rate : Text → Option ℤ
read_rate [] = none
read_rate (c ∷ t) = if c == b'-' then some (negsuc 0) else none

abbrev rates : Rates
rates = record { login = codes "-1"; voter = [] }

start_server-ready_example :
    (later : Database) × (held : Text) × (started : Site two_tokens) × (u : User) × (start_server
        two_tokens read_rate rates old_database nobody key_one
        (codes "password")
        (codes "password")
        1
      ≡ ok (later, started))
    × ((again : Text) → open_store later again ≡ some (later, held))
    × (started.accounts.users ≡ u ∷ [])
    × IsSafe started.accounts.users
    × (authenticate same started.accounts (codes "admin") (codes "password") ≡ some u)
    × (u.must_change_password ≡ true)
    × (started.tables ≡ later.tables)
unfolding text_discrete
start_server-ready_example =
    start_server-ready two_tokens read_rate rates same old_database nobody key_one
      (codes "password") (codes "password") 1 early refl refl (ground arith) refl

first_opens : OpenReach two_waiting one_open
unfolding read_secret
first_opens = next here (reads [] (opener [] ∷ []) (opener key_two) refl refl)
