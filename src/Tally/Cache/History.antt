-- ===== src/Tally/Cache/History.antt =====
-- What the readers of internal/store/response.go and the cache of `Tally` hold, and the databases that it
-- was read from.
use quicksurvey.Base.{
  ℕ, ◌≤◌, ◌==◌, ==_iff, ◌≡◌, refl, sym, subst, ◌⊎◌, inl, inr, Bool-cases, Option-cases, some, List,
  [], ◌∷◌, All, arith, Text, text_discrete,
}
use quicksurvey.Tables.{Tables, find_survey}
use quicksurvey.Tally.Cache.{
  Tallied, Cached, lookup, hit, store_tally, Progress, loaded, missed, has_row, has_survey,
  has_rows, has_choices, has_tally, answered, look, query,
}

abbrev pub Log : Type 0
Log = List (ℕ × Tables)

-- The database was this one after some number of commits, `g` or more.
abbrev pub HeldSince : ℕ → Tables → Log → Type 0
HeldSince g d [] = ⊥
HeldSince g d ((n, e) ∷ log) = ((g ≤ n) × (d ≡ e)) ⊎ HeldSince g d log

-- What a reader holds comes from queries that each read the database as it was after `g` commits or
-- more.
pub data Queried (log : Log) (g : ℕ) (key : Text) : Progress → Type 0 where
  asked_nothing : {p : Progress} → p ≡ missed → Queried log g key p
  asked :
      {p : Progress} (d : Tables) (q : Progress)
      → HeldSince g d log
      → Queried log g key q
      → p ≡ query d key q
      → Queried log g key p

pub HeldSince-le :
    (g g' : ℕ) (d : Tables) (log : Log) → g ≤ g' → HeldSince g' d log → HeldSince g d log
HeldSince-le g g' d [] le h = h
HeldSince-le g g' d ((n, e) ∷ log) le (inl (m, q)) = inl (omega arith, q)
HeldSince-le g g' d ((n, e) ∷ log) le (inr h) = inr (HeldSince-le g g' d log le h)

pub Queried-cons :
    (x : ℕ × Tables) (log : Log) (g : ℕ) (key : Text) (p : Progress)
    → Queried log g key p
    → Queried (x ∷ log) g key p
Queried-cons x log g key p (asked_nothing e) = asked_nothing e
Queried-cons x log g key p (asked d q h k e) = asked d q (inr h) (Queried-cons x log g key q k) e

-- What is known of a reader.
abbrev pub From : Log → ℕ → Text → Progress → Type 0
From log g key loaded = Unit {0}
From log g key missed = Queried log g key missed
From log g key (has_row sv) = Queried log g key (has_row sv)
From log g key (has_survey sv) = Queried log g key (has_survey sv)
From log g key (has_rows sv rows) = Queried log g key (has_rows sv rows)
From log g key (has_choices sv rs) = Queried log g key (has_choices sv rs)
From log g key (has_tally t) = Queried log g key (has_tally t)
From log g key (answered t) = Queried log g key (has_tally t)

pub From-cons :
    (x : ℕ × Tables) (log : Log) (g : ℕ) (key : Text) (p : Progress)
    → From log g key p
    → From (x ∷ log) g key p
From-cons x log g key loaded h = tt
From-cons x log g key missed h = Queried-cons x log g key _ h
From-cons x log g key (has_row sv) h = Queried-cons x log g key _ h
From-cons x log g key (has_survey sv) h = Queried-cons x log g key _ h
From-cons x log g key (has_rows sv rows) h = Queried-cons x log g key _ h
From-cons x log g key (has_choices sv rs) h = Queried-cons x log g key _ h
From-cons x log g key (has_tally t) h = Queried-cons x log g key _ h
From-cons x log g key (answered t) h = Queried-cons x log g key _ h

pub From-query :
    (log : Log) (g : ℕ) (key : Text) (d : Tables) (p : Progress)
    → HeldSince g d log
    → From log g key p
    → From log g key (query d key p)
unfolding query
From-query log g key d loaded held h = tt
From-query log g key d missed held h = elim (Option-cases (find_survey key d.surveys)) [
  | inl absent ↦
      let e : query d key missed ≡ has_tally ([], 0) = ground (arith, absent) in
      subst (From log g key) (sym e) (asked d missed held h (sym e))
  | inr (sv, found) ↦
      let e : query d key missed ≡ has_row sv = ground (arith, found) in
      subst (From log g key) (sym e) (asked d missed held h (sym e))
]
From-query log g key d (has_row sv) held h = asked d (has_row sv) held h refl
From-query log g key d (has_survey sv) held h = asked d (has_survey sv) held h refl
From-query log g key d (has_rows sv rows) held h = asked d (has_rows sv rows) held h refl
From-query log g key d (has_choices sv rs) held h = asked d (has_choices sv rs) held h refl
From-query log g key d (has_tally t) held h = h
From-query log g key d (answered t) held h = h

abbrev pub EntryFine : Log → ℕ → Text × Tallied → Type 0
EntryFine log g (key, v) = Queried log g key (has_tally v)

lookup-All :
    (P : Text × Tallied → Type 0) (key : Text) (es : List (Text × Tallied)) (v : Tallied)
    → All P es
    → lookup key es ≡ some v
    → P (key, v)
unfolding lookup
lookup-All P key [] v h e = absurd (ground arith)
lookup-All P key ((k, w) ∷ es) v h e = elim (text_discrete k key) [
  | yes q ↦ subst P (ground arith) h.0
  | no n ↦ lookup-All P key es v h.1 (ground arith)
]

pub From-look :
    (log : Log) (c : Cached) (g : ℕ) (key : Text)
    → All (EntryFine log c.tally_gen) c.entries
    → From log g key (look c g key)
unfolding look hit
From-look log c g key h = elim (Bool-cases (c.tally_gen == g)) [
  | inr other ↦
      let e : look c g key ≡ missed = ground arith in
      subst (From log g key) (sym e) (asked_nothing refl)
  | inl same_gen ↦ elim (Option-cases (lookup key c.entries)) [
    | inl absent ↦
        let e : look c g key ≡ missed = ground arith in
        subst (From log g key) (sym e) (asked_nothing refl)
    | inr (v, found) ↦
        let e : look c g key ≡ answered v = ground arith in
        subst (From log g key) (sym e) (
          subst (λ n. EntryFine log n (key, v)) ((==_iff _ _).0 same_gen)
            (lookup-All (EntryFine log c.tally_gen) key c.entries v h found))
  ]
]

-- What a reader puts into the cache.
pub store_tally-entries :
    (log : Log) (gen : ℕ) (c : Cached) (g : ℕ) (key : Text) (v : Tallied)
    → All (EntryFine log c.tally_gen) c.entries
    → EntryFine log g (key, v)
    → All (EntryFine log (store_tally c g gen key v).tally_gen) (store_tally c g gen key v).entries
unfolding store_tally
store_tally-entries log gen c g key v old new = elim (Bool-cases (c.tally_gen == g)) [
  | inl same_gen ↦ elim (Bool-cases (gen == g)) [
    | inl current ↦
        rw (same_gen, current)
          (new, subst (λ n. All (EntryFine log n) c.entries) ((==_iff _ _).0 same_gen) old)
    | inr stale ↦ rw (same_gen, stale) old
  ]
  | inr other_gen ↦ elim (Bool-cases (gen == g)) [
    | inl current ↦ rw (other_gen, current) (new, tt)
    | inr stale ↦ rw (other_gen, stale) tt
  ]
]
