-- ===== src/Tally/Cache/Served.antt =====
-- The tallies that `Store.Tally` of internal/store/response.go returns, against the writes that were
-- complete.
use quicksurvey.Base.{
  ℕ, suc, ◌+◌, ◌≤◌, ◌≡◌, refl, subst, inl, List, ◌∷◌, ◌++◌, All, All-mono, All-append, append-All,
  arith,
}
use quicksurvey.Tables.{Tables}
use quicksurvey.Tally.Cache.{
  Tallied, has_tally, answered, Reader, System, Step, commits, bumps, begins, looks, queries,
  stores, Reach, here, next, started,
}
use quicksurvey.Tally.Cache.History.{
  Log, HeldSince, Queried, HeldSince-le, Queried-cons, From, From-cons, From-query, EntryFine,
  From-look, store_tally-entries,
}

abbrev ReaderFine : Log → ℕ → Reader → Type 0
ReaderFine log gen r = (r.gen ≤ gen) × From log r.gen r.key r.progress

-- What the history says of the database after the last commit.
abbrev pub IsPast : Tables → ℕ → ℕ × Tables → Type 0
IsPast db total (n, d) = (n ≤ total) × (n ≡ total → d ≡ db)

pub record IsFine (s : System) : Type 0 where
  pub held : HeldSince (s.gen + s.in_flight) s.db s.log
  pub past : All (IsPast s.db (s.gen + s.in_flight)) s.log
  pub entries : All (EntryFine s.log s.cached.tally_gen) s.cached.entries
  pub readers : All (ReaderFine s.log s.gen) s.readers

split :
    (s : System) (before after : List Reader) (r : Reader)
    → s.readers ≡ before ++ (r ∷ after)
    → IsFine s
    → All (ReaderFine s.log s.gen) before
      × ReaderFine s.log s.gen r
      × All (ReaderFine s.log s.gen) after
split s before after r e f =
    let (front, rest) =
      append-All (ReaderFine s.log s.gen) before (r ∷ after)
        (subst (All (ReaderFine s.log s.gen)) e f.readers) in
    (front, rest.0, rest.1)

Step-IsFine : {s t : System} → IsFine s → Step s t → IsFine t
Step-IsFine {s} f (commits db') = record {
  held = inl (omega arith, refl);
  past = (
    (omega arith, λ _. refl),
    All-mono _ _ s.log (λ x h. (omega (arith, h.0), λ k. absurd (omega (arith, h.0)))) f.past,
  );
  entries =
      All-mono _ _ s.cached.entries (λ e h. Queried-cons _ s.log _ e.0 (has_tally e.1) h) f.entries;
  readers =
      All-mono _ _ s.readers (λ r h. (h.0, From-cons _ s.log r.gen r.key r.progress h.1)) f.readers;
}
Step-IsFine {s} f (bumps n e) =
    let total : s.gen + s.in_flight ≡ suc s.gen + n = omega arith in
    record {
      held = subst (λ m. HeldSince m s.db s.log) total f.held;
      past = subst (λ m. All (IsPast s.db m) s.log) total f.past;
      entries = f.entries;
      readers = All-mono _ _ s.readers (λ r h. (omega (arith, h.0), h.1)) f.readers;
    }
Step-IsFine f (begins key) = record {
  held = f.held;
  past = f.past;
  entries = f.entries;
  readers = ((omega arith, tt), f.readers);
}
Step-IsFine {s} f (looks before after r e there) =
    let (front, h, back) = split s before after r e f in
    record {
      held = f.held;
      past = f.past;
      entries = f.entries;
      readers =
          All-append _ before _ front ((h.0, From-look s.log s.cached r.gen r.key f.entries), back);
    }
Step-IsFine {s} f (queries before after r e) =
    let (front, h, back) = split s before after r e f in
    let held : HeldSince r.gen s.db s.log =
      HeldSince-le r.gen (s.gen + s.in_flight) s.db s.log (omega (arith, h.0)) f.held in
    record {
      held = f.held;
      past = f.past;
      entries = f.entries;
      readers =
          All-append _ before _ front
            ((h.0, From-query s.log r.gen r.key s.db r.progress held h.1), back);
    }
Step-IsFine {s} f (stores before after r t e done) =
    let (front, h, back) = split s before after r e f in
    let k : Queried s.log r.gen r.key (has_tally t) = subst (From s.log r.gen r.key) done h.1 in
    record {
      held = f.held;
      past = f.past;
      entries = store_tally-entries s.log s.gen s.cached r.gen r.key t f.entries k;
      readers = All-append _ before _ front ((h.0, k), back);
    }

started-IsFine : (db : Tables) → IsFine (started db)
started-IsFine db = record {
  held = inl (omega arith, refl);
  past = ((omega arith, λ _. refl), tt);
  entries = tt;
  readers = tt;
}

pub Reach-IsFine : {db : Tables} {s : System} → Reach (started db) s → IsFine s
Reach-IsFine {db} here = started-IsFine db
Reach-IsFine (next r st) = Step-IsFine (Reach-IsFine r) st

pub answered-Queried :
    (db : Tables) (s : System) (before after : List Reader) (r : Reader) (v : Tallied)
    → Reach (started db) s
    → s.readers ≡ before ++ (r ∷ after)
    → r.progress ≡ answered v
    → Queried s.log r.gen r.key (has_tally v)
answered-Queried db s before after r v ran there e =
    let (front, h, back) = split s before after r there (Reach-IsFine ran) in
    subst (From s.log r.gen r.key) e h.1
