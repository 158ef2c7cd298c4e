-- ===== src/Tally/Cache/Current.antt =====
-- The tallies that `Store.Tally` of internal/store/response.go returns while nothing is written, against
-- the database.
use quicksurvey.Base.{
  ℕ, ◌+◌, ◌≡◌, refl, ◌∙◌, sym, ap, subst, inl, inr, Option-cases, none, some, List, [], ◌∷◌, ◌++◌,
  map, All, arith, Text,
}
use quicksurvey.Tables.{Tables, ResponseRow, find_survey, load_survey}
use quicksurvey.Tally.{attached, responses, compute_tally}
use quicksurvey.Tally.Cache.{
  Tallied, Progress, loaded, missed, has_row, has_survey, has_rows, has_choices, has_tally,
  answered, Reader, rows_of, with_choices, with_seen, query, System, Reach, started,
}
use quicksurvey.Tally.Cache.History.{Log, HeldSince, Queried, asked_nothing, asked}
use quicksurvey.Tally.Cache.Served.{IsPast, Reach-IsFine, answered-Queried}

-- What a reader holds is what the database gives.
abbrev IsFresh : Tables → Text → Progress → Type 0
IsFresh db key loaded = Unit {0}
IsFresh db key missed = Unit {0}
IsFresh db key (has_row sv) = find_survey key db.surveys ≡ some sv
IsFresh db key (has_survey sv) = load_survey db key ≡ some sv
IsFresh db key (has_rows sv rows) = (load_survey db key ≡ some sv) × (rows ≡ rows_of db key)
IsFresh db key (has_choices sv rs) =
    (load_survey db key ≡ some sv) × (rs ≡ map (with_choices db) (rows_of db key))
IsFresh db key (has_tally t) = t ≡ compute_tally db key
IsFresh db key (answered t) = t ≡ compute_tally db key

attach_both :
    (db : Tables) (rows : List ResponseRow)
    → map (with_seen db) (map (with_choices db) rows) ≡ map (attached db) rows
unfolding with_seen with_choices attached
attach_both db [] = refl
attach_both db (r ∷ rows) = ap (λ l. attached db r ∷ l) (attach_both db rows)

no_survey :
    (db : Tables) (key : Text) → find_survey key db.surveys ≡ none → compute_tally db key ≡ ([], 0)
unfolding compute_tally load_survey
no_survey db key absent = ground (arith, absent)

query-IsFresh :
    (db : Tables) (key : Text) (p : Progress) → IsFresh db key p → IsFresh db key (query db key p)
unfolding query
query-IsFresh db key loaded h = tt
query-IsFresh db key missed h = elim (Option-cases (find_survey key db.surveys)) [
  | inl absent ↦
      let e : query db key missed ≡ has_tally ([], 0) = ground (arith, absent) in
      subst (IsFresh db key) (sym e) (sym (no_survey db key absent))
  | inr (sv, found) ↦
      let e : query db key missed ≡ has_row sv = ground (arith, found) in
      subst (IsFresh db key) (sym e) found
]
query-IsFresh db key (has_row sv) h = unfold load_survey in rw (load_survey, h)
query-IsFresh db key (has_survey sv) h = (h, refl)
query-IsFresh db key (has_rows sv rows) h = (h.0, ap (map (with_choices db)) h.1)
query-IsFresh db key (has_choices sv rs) h =
    unfold compute_tally responses rows_of in
    rw (compute_tally, h.0, h.1, attach_both db (rows_of db key))
query-IsFresh db key (has_tally t) h = h
query-IsFresh db key (answered t) h = h

HeldSince-last :
    (db d : Tables) (total : ℕ) (log : Log)
    → All (IsPast db total) log
    → HeldSince total d log
    → d ≡ db
HeldSince-last db d total [] p h = absurd h
HeldSince-last db d total ((n, e) ∷ log) p (inl (le, q)) = q ∙ p.0.1 (omega (arith, p.0.0))
HeldSince-last db d total ((n, e) ∷ log) p (inr h) = HeldSince-last db d total log p.1 h

Queried-IsFresh :
    (db : Tables) (total : ℕ) (log : Log) (key : Text) (p : Progress)
    → All (IsPast db total) log
    → Queried log total key p
    → IsFresh db key p
Queried-IsFresh db total log key p past (asked_nothing e) = subst (IsFresh db key) (sym e) tt
Queried-IsFresh db total log key p past (asked d q held k e) =
    let same_db : d ≡ db = HeldSince-last db d total log past held in
    subst (IsFresh db key) (sym (e ∙ ap (λ x. query x key q) same_db))
      (query-IsFresh db key q (Queried-IsFresh db total log key q past k))

-- However readers and writers of one process interleave, a tally that `Tally` returns, from the cache
-- or not, is the tally of the database, if no write was under way when the reader loaded the counter
-- and none has been committed since.
pub answered-compute_tally :
    (db : Tables) (s : System) (before after : List Reader) (r : Reader) (v : Tallied)
    → Reach (started db) s
    → s.readers ≡ before ++ (r ∷ after)
    → r.progress ≡ answered v
    → s.gen + s.in_flight ≡ r.gen
    → v ≡ compute_tally s.db r.key
answered-compute_tally db s before after r v ran there e quiet =
    let f = Reach-IsFine ran in
    let k = answered-Queried db s before after r v ran there e in
    Queried-IsFresh s.db (s.gen + s.in_flight) s.log r.key (has_tally v) f.past
      (subst (λ g. Queried s.log g r.key (has_tally v)) (sym quiet) k)
