-- ===== src/Documents/Backup/Restored.antt =====
-- A full backup of internal/store/portable.go, restored and read back from the tables.
use quicksurvey.Base.{
  ℕ, suc, ◌+◌, ◌≤◌, ◌<◌, ◌==◌, ◌≡◌, refl, ◌∙◌, ap, ltb, Bool, true, false, ◌&&◌, ◌||◌, none, some,
  List, [], ◌∷◌, ◌++◌, map, filter, filter-append, insert_by, sort_by, any, length, All, Text, same,
  same_refl, text_discrete, arith, ok,
}
use quicksurvey.Survey.{Survey}
use quicksurvey.Tables.{Tables, ResponseRow, find_survey, load_survey}
use quicksurvey.Tables.Fresh.{IsNew, stamp_stamped, load-save_survey_new}
use quicksurvey.Response.{Response}
use quicksurvey.Response.Save.{load_ids, row_of}
use quicksurvey.Tally.{text_le, older, attached, responses}
use quicksurvey.Documents.{Document, survey_document}
use quicksurvey.Documents.Restore.{Draws, row_clash, restore_survey}
use quicksurvey.Documents.Restore.Written.{Differs, AllDiffer, IsHeld, insert_responses_new}
use quicksurvey.Documents.Restore.Written as Written
use quicksurvey.Documents.Backup.{
  IsAnswer, VotersApart, IsSavable, renumbered, restorable-survey_document-true,
}

-- Nothing of the survey is in the tables, and the ids that are drawn for its `n` answers are new, each
-- different from the others.
pub record IsFree (db : Tables) (sv : Survey) (draw : ℕ → Text) (n : ℕ) : Type 0 where
  pub survey : find_survey sv.id db.surveys ≡ none
  pub options : All (λ r. same r.survey_id sv.id ≡ false) db.options
  pub option_ids : All (IsNew db.options) sv.options
  pub rows : All (λ r. same r.survey_id sv.id ≡ false) db.responses
  pub draws : (i j : ℕ) → i < n → j < n → draw i ≡ draw j → i ≡ j
  pub row_ids : (i : ℕ) → i < n → All (λ r. same r.id (draw i) ≡ false) db.responses
  pub no_choices : (i : ℕ) → i < n → load_ids db.choices (draw i) ≡ []
  pub no_seen : (i : ℕ) → i < n → load_ids db.seen (draw i) ≡ []

-- Answers by the time of creation, and by id among equal times.
abbrev pub earlier : Response → Response → Bool
earlier a b = ltb a.created b.created || (a.created == b.created && text_le a.id b.id)

module _ (draw : ℕ → Text) (n : ℕ)
    (apart : (i j : ℕ) → i < n → j < n → draw i ≡ draw j → i ≡ j) where
  renumbered-Differs :
      (k i : ℕ) (r : Response) (rs : List Response)
      → k < i
      → i + length rs ≤ n
      → All (λ (q : Response). same r.voter q.voter ≡ false) rs
      → All (Differs (record r { id = draw k })) (renumbered draw i rs)
  renumbered-Differs k i r [] lt fits h = tt
  renumbered-Differs k i r (q ∷ rs) lt fits h =
      let ids : same (draw k) (draw i) ≡ false = elim (text_discrete (draw k) (draw i)) [
        | yes e ↦ absurd (omega (arith, apart k i (omega arith) (omega arith) e))
        | no n' ↦ ground arith
      ] in
      ((ids, h.0), renumbered-Differs k (suc i) r rs (omega arith) (omega arith) h.1)

  renumbered-AllDiffer :
      (i : ℕ) (rs : List Response)
      → i + length rs ≤ n
      → VotersApart rs
      → AllDiffer (renumbered draw i rs)
  renumbered-AllDiffer i [] fits h = tt
  renumbered-AllDiffer i (r ∷ rs) fits h = (
    renumbered-Differs i (suc i) r rs (omega arith) (omega arith) h.0,
    renumbered-AllDiffer (suc i) rs (omega arith) h.1,
  )

no_clash :
    (sid : Text) (r : Response) (rows : List ResponseRow)
    → All (λ q. same q.survey_id sid ≡ false) rows
    → All (λ q. same q.id r.id ≡ false) rows
    → any (row_clash sid r) rows ≡ false
unfolding any
no_clash sid r [] h k = refl
no_clash sid r (q ∷ rows) h k = ground (arith, h.0, k.0, no_clash sid r rows h.1 k.1)

renumbered-IsNew :
    (db saved : Tables) (sv : Survey) (draw : ℕ → Text) (n i : ℕ) (rs : List Response)
    → IsFree db sv draw n
    → i + length rs ≤ n
    → saved.responses ≡ db.responses
    → saved.choices ≡ db.choices
    → saved.seen ≡ db.seen
    → All (IsAnswer sv.options) rs
    → All (Written.IsNew saved sv.id) (renumbered draw i rs)
renumbered-IsNew db saved sv draw n i [] free fits er ec es h = tt
renumbered-IsNew db saved sv draw n i (r ∷ rs) free fits er ec es (a, h) = (
  record {
    row =
        ap (any (row_clash sv.id (record r { id = draw i }))) er
        ∙ no_clash sv.id (record r { id = draw i }) db.responses free.rows
            (free.row_ids i (omega arith));
    no_choices = ap (λ l. load_ids l (draw i)) ec ∙ free.no_choices i (omega arith);
    no_seen = ap (λ l. load_ids l (draw i)) es ∙ free.no_seen i (omega arith);
    choices = a.once;
    seen = a.distinct;
  },
  renumbered-IsNew db saved sv draw n (suc i) rs free (omega arith) er ec es h,
)

module _ (db : Tables) where
  map-insert_by :
      (r : ResponseRow) (rs : List ResponseRow)
      → map (attached db) (insert_by older r rs)
        ≡ insert_by earlier (attached db r) (map (attached db) rs)
  unfolding insert_by attached
  map-insert_by r [] = refl
  map-insert_by r (q ∷ rs) = ground (arith, map-insert_by r rs)

  map-sort_by :
      (rs : List ResponseRow)
      → map (attached db) (sort_by older rs) ≡ sort_by earlier (map (attached db) rs)
  unfolding sort_by
  map-sort_by [] = refl
  map-sort_by (r ∷ rs) =
      map-insert_by r (sort_by older rs) ∙ ap (insert_by earlier (attached db r)) (map-sort_by rs)

  attached-row_of :
      (sid : Text) (rs : List Response)
      → All (IsHeld db) rs
      → map (attached db) (map (row_of sid) rs) ≡ rs
  unfolding attached
  attached-row_of sid [] h = refl
  attached-row_of sid (r ∷ rs) h = rw (h.0.0, h.0.1, attached-row_of sid rs h.1)

other_rows :
    (sid : Text) (rows : List ResponseRow)
    → All (λ r. same r.survey_id sid ≡ false) rows
    → filter (λ r. same r.survey_id sid) rows ≡ []
unfolding filter
other_rows sid [] h = refl
other_rows sid (r ∷ rows) h = ground (arith, h.0, other_rows sid rows h.1)

own_rows :
    (sid : Text) (rs : List Response)
    → filter (λ r. same r.survey_id sid) (map (row_of sid) rs) ≡ map (row_of sid) rs
unfolding filter
own_rows sid [] = refl
own_rows sid (r ∷ rs) = ground (arith, same_refl sid, own_rows sid rs)

-- The answers of a survey, where the rows are others' and these.
responses_read :
    (db : Tables) (sid : Text) (others : List ResponseRow) (rs : List Response)
    → db.responses ≡ others ++ map (row_of sid) rs
    → All (λ r. same r.survey_id sid ≡ false) others
    → All (IsHeld db) rs
    → responses db sid ≡ sort_by earlier rs
unfolding responses
responses_read db sid others rs e h held =
    map-sort_by db (filter (λ r. same r.survey_id sid) db.responses)
    ∙ ap (sort_by earlier) (
        ap (map (attached db)) (
          ap (filter (λ r. same r.survey_id sid)) e
          ∙ filter-append (λ r. same r.survey_id sid) others (map (row_of sid) rs)
          ∙ ap (λ l. l ++ filter (λ r. same r.survey_id sid) (map (row_of sid) rs))
              (other_rows sid others h)
          ∙ own_rows sid rs)
        ∙ attached-row_of db sid rs held)

-- The survey is loaded as before where the tables of surveys and options are the same.
load_survey_same :
    (db db' : Tables) (id : Text)
    → db'.surveys ≡ db.surveys
    → db'.options ≡ db.options
    → load_survey db' id ≡ load_survey db id
unfolding load_survey
load_survey_same db db' id e k = ground (arith, e, k)

-- A full backup of a survey as the program stores it, restored under the original id into tables that
-- hold nothing of the survey, with new ids drawn for the answers: the restore succeeds, the survey that
-- is loaded afterwards is the one that was saved, option ids, merges and history included, and the
-- answers that are read are those that were, with their choices, what they have seen, their comments
-- and their times, under the ids drawn, by time of creation and then by the new id.
pub restore_survey-survey_document :
    (db db' : Tables) (id : Text) (sv : Survey) (saved_at : ℕ) (doc : Document) (draws : Draws)
    (now : ℕ)
    → load_survey db id ≡ some sv
    → survey_document db id true saved_at ≡ ok doc
    → IsSavable sv (responses db sv.id)
    → IsFree db' sv draws.response (length (responses db sv.id))
    → (after : Tables) × (restore_survey db' doc true draws now ≡ ok (sv, after))
      × (load_survey after sv.id ≡ some sv)
      × (responses after sv.id ≡ sort_by earlier (renumbered draws.response 0 (responses db sv.id)))
unfolding restore_survey
restore_survey-survey_document db db' id sv saved_at doc draws now found wrote s free =
    let rs = renumbered draws.response 0 (responses db sv.id) in
    let gone : load_survey db' sv.id ≡ none = unfold load_survey in rw (load_survey, free.survey) in
    let read =
      restorable-survey_document-true db db' id sv saved_at doc draws now found wrote s gone in
    let (saved, saves, loads, er, ec, es) =
      load-save_survey_new db' sv now free.survey s.first s.few s.apart free.option_ids
        free.options in
    let (after, inserts, rows, svs, os, held, _) =
      insert_responses_new saved sv.id rs
        (renumbered-IsNew db' saved sv draws.response (length (responses db sv.id)) 0
          (responses db sv.id) free (omega arith) er ec es s.answers)
        (renumbered-AllDiffer draws.response (length (responses db sv.id)) free.draws 0
          (responses db sv.id) (omega arith) s.voters) in
    (
      after,
      ground (arith, read, saves, inserts, stamp_stamped sv now s.first),
      load_survey_same saved after sv.id svs os ∙ loads,
      responses_read after sv.id db'.responses rs (rows ∙ ap (λ l. l ++ map (row_of sv.id) rs) er)
          free.rows held,
    )
