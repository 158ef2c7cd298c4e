-- ===== src/Tests/Limits.antt =====
-- The limiter with a bucket of two tokens, the cells of an export, and the cache of tallies.
use quicksurvey.Base.{
  ℕ, zero, suc, ◌≡◌, refl, Bool, true, false, [], ◌∷◌, Text, codes, text_discrete, filter, map,
  arith,
}
use quicksurvey.Survey.{resolve}
use quicksurvey.Limiter.{
  Rate, Limiter, find_entry, put_entry, has_budget, sweep, charge, admit, allow, spend,
}
use quicksurvey.Limiter.Bounds.{IsBounded, run_charges, run_charges-IsBounded}
use quicksurvey.Export.{cell, fields, resolve_map, resolve_via}
use quicksurvey.Export.Cells.{read_row, read_row-fields}
use quicksurvey.Export.Columns.{resolve_via-resolve}
use quicksurvey.Tally.{compute_tally}
use quicksurvey.Tally.Cache.{
  Tallied, lookup, hit, store_tally, Progress, loaded, missed, answered, Reader, look, rows_of,
  with_choices, with_seen, query, System, begins, looks, queries, stores, Reach, here, next,
  started,
}
use quicksurvey.Tally.Cache.Current.{answered-compute_tally}
use quicksurvey.Tests.Samples.{drinks, tables, program}

-- Two tokens, never filled up again.
abbrev take_token : ℕ → Bool × ℕ
take_token zero = (false, 0)
take_token (suc n) = (true, n)

abbrev has_token : ℕ → Bool
has_token n = (take_token n).0

abbrev pub two_tokens : Rate
two_tokens = record {
  Bucket = ℕ;
  fresh = 2;
  enough = λ _ n. has_token n;
  allow = λ _ n. take_token n;
  fresh_enough = λ _. refl;
  allow_enough = λ _ _. refl;
}

abbrev small : Limiter two_tokens
small = record { ttl = 10; max = 1; buckets = []; swept = 0 }

run_charges-IsBounded_example :
    IsBounded two_tokens
      (run_charges two_tokens small ((1, codes "a") ∷ (2, codes "b") ∷ (3, codes "a") ∷ []))
run_charges-IsBounded_example =
    run_charges-IsBounded two_tokens small ((1, codes "a") ∷ (2, codes "b") ∷ (3, codes "a") ∷ [])
      (omega arith)

-- A bucket that the charge itself sweeps away.
abbrev idle : Limiter two_tokens
idle = record small { buckets = record { key = codes "a"; lim = 1; seen = 5 } ∷ [] }

unfoldable limiter_program : Unit {0}
unfolding text_discrete filter find_entry put_entry has_budget sweep charge admit allow spend
limiter_program = tt

second_refused : (allow two_tokens (spend two_tokens small (codes "a") 1) (codes "b") 2).0 ≡ false
unfolding limiter_program
second_refused = refl

read_row-fields_example :
    read_row (fields (codes "a\tb" ∷ codes "c" ∷ [])) ≡ map cell (codes "a\tb" ∷ codes "c" ∷ [])
read_row-fields_example = read_row-fields (codes "a\tb") (codes "c" ∷ [])

resolve_via-resolve_example :
    resolve_via (resolve_map drinks drinks.options) (codes "char")
    ≡ (resolve drinks (codes "char")).0
resolve_via-resolve_example = resolve_via-resolve drinks (codes "char")

abbrev key : Text
key = codes "s1"

abbrev reader : Progress → Reader
reader p = record { key = key; gen = 0; progress = p }

abbrev surveyed : Progress
surveyed = query tables key (query tables key missed)

abbrev with_rows : Progress
with_rows = query tables key surveyed

abbrev tallied : Progress
tallied = query tables key (query tables key with_rows)

abbrev counted : Tallied
counted = compute_tally tables key

-- One reader has made the tally and stored it, and another was given it from the cache.
abbrev warm : System
warm = record (started tables) {
  cached = store_tally (started tables).cached 0 0 key counted;
  readers = reader (answered counted) ∷ reader (answered counted) ∷ [];
}

warm-Reach : Reach (started tables) warm
unfolding program look hit lookup query rows_of with_choices with_seen store_tally text_discrete
warm-Reach =
    let stored =
      next
        (next
          (next
            (next
              (next
                (next (next (next here (begins key)) (looks [] [] (reader loaded) refl refl))
                  (queries [] [] (reader missed) refl))
                (queries [] [] (reader (query tables key missed)) refl))
              (queries [] [] (reader surveyed) refl))
            (queries [] [] (reader with_rows) refl))
          (queries [] [] (reader (query tables key with_rows)) refl))
        (stores [] [] (reader tallied) counted refl refl) in
    next (next stored (begins key))
      (looks [] (reader (answered counted) ∷ []) (reader loaded) refl refl)

answered-compute_tally_example : counted ≡ compute_tally tables key
answered-compute_tally_example =
    answered-compute_tally tables warm [] (reader (answered counted) ∷ [])
      (reader (answered counted)) counted warm-Reach refl refl refl
