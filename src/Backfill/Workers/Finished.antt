-- ===== src/Backfill/Workers/Finished.antt =====
-- What processes that backfill the database of internal/store/store.go at a time have left to do.
use quicksurvey.Base.{
  ◌≡◌, ap, ◌∙◌, subst, ◌&&◌, Bool, true, false, not, Bool-cases, inl, inr, List, [], ◌∷◌, ◌++◌, All,
  All-mono, All-append, append-All, filter, map, Text, same, same→eq, arith,
}
use quicksurvey.Survey.{Survey}
use quicksurvey.Tables.{Tables, ResponseRow, Mark}
use quicksurvey.Response.{has}
use quicksurvey.Tally.{text_le}
use quicksurvey.Tally.Order.{text_le-antisym, IsSorted, sort_by-IsSorted, has-sort_by, All-has}
use quicksurvey.Backfill.{backfill_rows, survey_ids_after}
use quicksurvey.Backfill.Exposed.{Given, Grows, backfill_rows-Grows, backfill_rows-Given}
use quicksurvey.Backfill.Workers.{Worker, resuming, listed, Upgrade}

abbrev pub survey_ids : Tables → List Text
survey_ids db = map (λ (sv : Survey). sv.id) db.surveys

-- Every response to a survey has been given all that it is to be given.
abbrev pub IsHandled : Tables → List Mark → Text → Type 0
IsHandled db seen sid =
    All (λ (r : ResponseRow). same r.survey_id sid ≡ true → Given db.choices db.options seen r)
      db.responses

-- Every survey up to an id has been handled: what 'seen_backfilled_through' says.
abbrev pub IsThrough : Tables → List Mark → Text → Type 0
IsThrough db seen t =
    (sid : Text) → has sid (survey_ids db) ≡ true → text_le sid t ≡ true → IsHandled db seen sid

-- What a process has left to do is all that is left, in order.
abbrev pub IsLeft : Tables → List Mark → Worker → Type 0
IsLeft db seen (resuming t) = IsThrough db seen t
IsLeft db seen (listed ids) =
    IsSorted ids
    × ((sid : Text) → has sid (survey_ids db) ≡ true → has sid ids ≡ false → IsHandled db seen sid)

has-filter : (p : Text → Bool) (z : Text) (xs : List Text) → has z (filter p xs) ≡ (p z && has z xs)
unfolding filter has
has-filter p z [] = ground arith
has-filter p z (x ∷ xs) = elim (Bool-cases (same x z)) [
  | inl hit ↦ ground (arith, hit, ap p (same→eq x z hit), has-filter p z xs)
  | inr miss ↦ ground (arith, miss, has-filter p z xs)
]

has-survey_ids_after :
    (db : Tables) (t sid : Text)
    → has sid (survey_ids_after db t) ≡ (not (text_le sid t) && has sid (survey_ids db))
unfolding survey_ids_after
has-survey_ids_after db t sid =
    has-sort_by sid (filter (λ id. not (text_le id t)) (survey_ids db))
    ∙ has-filter (λ id. not (text_le id t)) sid (survey_ids db)

module _ (db : Tables) where
  IsHandled-grown :
      (seen later : List Mark) (sid : Text)
      → Grows db.choices db.options seen later
      → IsHandled db seen sid
      → IsHandled db later sid
  IsHandled-grown seen later sid grows =
      All-mono _ _ db.responses (λ r given own id h. grows r.id id (given own id h))

  IsLeft-grown :
      (seen later : List Mark) (w : Worker)
      → Grows db.choices db.options seen later
      → IsLeft db seen w
      → IsLeft db later w
  IsLeft-grown seen later (resuming t) grows through =
      λ sid there le. IsHandled-grown seen later sid grows (through sid there le)
  IsLeft-grown seen later (listed ids) grows (sorted, rest) =
      (sorted, λ sid there out. IsHandled-grown seen later sid grows (rest sid there out))

  pub IsLeft-listed :
      (seen : List Mark) (t : Text)
      → IsThrough db seen t
      → IsLeft db seen (listed (survey_ids_after db t))
  unfolding survey_ids_after
  IsLeft-listed seen t through = (
    sort_by-IsSorted (filter (λ id. not (text_le id t)) (survey_ids db)),
    λ sid there out. through sid there (ground (arith, has-survey_ids_after db t sid, out, there)),
  )

  -- One survey done: the process goes on with the others, and the mark says no more than was done.
  pub IsLeft-step :
      (seen : List Mark) (id : Text) (ids : List Text)
      → IsLeft db seen (listed (id ∷ ids))
      → let later = backfill_rows db.choices db.options id db.responses seen in
        IsLeft db later (listed ids) × IsThrough db later id
  unfolding has
  IsLeft-step seen id ids ((first, sorted), rest) =
      let later = backfill_rows db.choices db.options id db.responses seen in
      let grows = backfill_rows-Grows db.choices db.options id db.responses seen in
      let handled : IsHandled db later id =
        backfill_rows-Given db.choices db.options id db.responses seen in
      let left : (sid : Text)
          → has sid (survey_ids db) ≡ true
          → has sid ids ≡ false
          → IsHandled db later sid =
        λ sid there out. elim (Bool-cases (same id sid)) [
          | inl hit ↦ subst (IsHandled db later) (same→eq id sid hit) handled
          | inr miss ↦
              IsHandled-grown seen later sid grows (rest sid there (ground (arith, miss, out)))
        ] in
      (
        (sorted, left),
        λ sid there le. elim (Bool-cases (has sid ids)) [
          | inr out ↦ left sid there out
          | inl in_list ↦
              subst (IsHandled db later)
                (text_le-antisym id sid (All-has (λ y. text_le id y ≡ true) ids sid first in_list)
                  le)
                handled
        ],
      )

  -- What holds until the backfill is marked as done.
  pub record IsUnder (s : Upgrade) : Type 0 where
    pub rows : s.db ≡ record db { seen = s.db.seen }
    pub grows : Grows db.choices db.options db.seen s.db.seen
    pub through : IsThrough db s.db.seen s.meta.through
    pub left : All (IsLeft db s.db.seen) s.workers

  pub replaced :
      (seen later : List Mark) (before after : List Worker) (w v : Worker)
      → Grows db.choices db.options seen later
      → All (IsLeft db seen) (before ++ (w ∷ after))
      → IsLeft db later v
      → All (IsLeft db later) (before ++ (v ∷ after))
  replaced seen later before after w v grows all new =
      let (front, back) = append-All (IsLeft db seen) before (w ∷ after) all in
      let kept : (ws : List Worker) → All (IsLeft db seen) ws → All (IsLeft db later) ws = λ ws.
        All-mono (IsLeft db seen) (IsLeft db later) ws (λ x. IsLeft-grown seen later x grows) in
      All-append (IsLeft db later) before (v ∷ after) (kept before front) (new, kept after back.1)

  pub taken :
      (seen : List Mark) (before after : List Worker) (w : Worker)
      → All (IsLeft db seen) (before ++ (w ∷ after))
      → IsLeft db seen w × All (IsLeft db seen) (before ++ after)
  taken seen before after w all =
      let (front, back) = append-All (IsLeft db seen) before (w ∷ after) all in
      (back.0, All-append (IsLeft db seen) before after front back.1)
