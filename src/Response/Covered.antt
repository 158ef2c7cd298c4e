-- ===== src/Response/Covered.antt =====
-- The tables after `saveResponseTx` of internal/store/response.go: what is stored for the response,
-- and the stored choices against the options stored as seen.
use quicksurvey.Base.{
  ℕ, ◌≡◌, refl, ◌∙◌, sym, ap, subst, inl, inr, if◌then◌else◌, Bool, true, ◌&&◌, ◌||◌, List, arith,
  Text, same, same_refl, Result-cases, Option, Option-cases, none, some, ok,
}
use quicksurvey.Survey.{Survey, find_option, accepting_from}
use quicksurvey.Survey.Edit.{is_some}
use quicksurvey.Tables.{Tables, load_survey}
use quicksurvey.Response.{Response, has, prev_choices, prev_seen, response_of}
use quicksurvey.Response.Sets.{Within, Distinct}
use quicksurvey.Response.Shown.{choices-Within-seen, choices-Distinct, prev_seen-Within}
use quicksurvey.Response.Stored.{
  load_ids-delete_marks, load_ids-insert_choices, has-insert_or_ignore, write_seen_lem,
  insert_seen_or_ignore,
}
use quicksurvey.Response.Save.{
  load_ids, find_row, load_response, delete_marks, insert_or_ignore, write_seen, write_response,
  save_response_tx,
}

-- Every stored choice of every response names an option stored as seen by that response.
abbrev pub IsCovered : Tables → Type 0
IsCovered db = (rid : Text) → Within (load_ids db.choices rid) (load_ids db.seen rid)

-- The stored seen set of a respondent lists options of the survey, each once: what the primary key
-- of `seen` and the fact that options are never deleted give.
pub record IsKnown (db : Tables) (sid voter : Text) (sv : Survey) : Type 0 where
  pub distinct : (p : Response) → load_response db sid voter true ≡ some p → Distinct p.seen
  pub known :
      (p : Response)
      → load_response db sid voter true ≡ some p
      → (id : Text) → has id p.seen ≡ true
      → is_some (find_option id sv.options) ≡ true

pub marks-load_response :
    (db : Tables) (sid voter : Text) (p : Response)
    → load_response db sid voter true ≡ some p
    → (p.choices ≡ load_ids db.choices p.id) × (p.seen ≡ load_ids db.seen p.id)
unfolding load_response
marks-load_response db sid voter p h = elim (Option-cases (find_row sid voter db.responses)) [
  | inl absent ↦ absurd (ground arith)
  | inr (r, found) ↦ (ground arith, ground arith)
]

-- What `choices` and `seen` hold for each response after the writes.
pub record Wrote (db db' : Tables) (r : Response) : Type 0 where
  pub choices :
      (other : Text)
      → load_ids db'.choices other
        ≡ (if same r.id other then r.choices else load_ids db.choices other)
  pub seen :
      (other id : Text)
      → has id (load_ids db'.seen other)
        ≡ (has id (load_ids db.seen other) || (same r.id other && has id r.seen))

write_response-Wrote :
    (db db' : Tables) (sid : Text) (prev : Option Response) (r : Response)
    → Distinct r.choices
    → write_seen prev r db.seen ≡ insert_or_ignore r.id r.seen db.seen
    → write_response db sid prev r ≡ ok db'
    → Wrote db db' r
unfolding write_response
write_response-Wrote db db' sid prev r d plain h =
    let (chosen, stored, loads) =
      load_ids-insert_choices r.id r.choices (delete_marks r.id db.choices) d (λ id _.
        rw (load_ids-delete_marks r.id r.id db.choices, same_refl r.id) (unfold has in refl)) in
    let e : db'.choices ≡ chosen = ground arith in
    let f : db'.seen ≡ insert_or_ignore r.id r.seen db.seen = ground arith in
    record {
      choices = λ other.
          ap (λ ms. load_ids ms other) e
          ∙ loads other
          ∙ ground (arith, load_ids-delete_marks r.id other db.choices);
      seen = λ other id.
          ap (λ ms. has id (load_ids ms other)) f
          ∙ has-insert_or_ignore r.id r.seen db.seen other id;
    }

-- A submission that is accepted was made to a survey that takes responses, and is the response that
-- its choices, the previous answer and the survey determine, written to the tables.
pub save_response_tx-eq-ok :
    (db : Tables) (sid voter : Text) (choices : List Text) (comment allow : Text) (preview : Bool)
    (fresh : Text) (now : ℕ) (r : Response) (db' : Tables)
    → save_response_tx db sid voter choices comment allow preview fresh now ≡ ok (r, db')
    → (sv : Survey) × (load_survey db sid ≡ some sv)
      × (accepting_from sv now preview ≡ true)
      × (r ≡ response_of sv (load_response db sid voter true) allow voter choices comment fresh now)
      × (write_response db sid (load_response db sid voter true) r ≡ ok db')
unfolding save_response_tx
save_response_tx-eq-ok db sid voter choices comment allow preview fresh now r db' h =
    elim (Option-cases (load_survey db sid)) [
      | inl absent ↦ absurd (ground arith)
      | inr (sv, found) ↦
          elim (Result-cases (
            write_response db sid (load_response db sid voter true) (
              response_of sv (load_response db sid voter true) allow voter choices comment fresh
                now))) [
                  | inl (t, wrote) ↦ (sv, found, ground arith, ground arith, ground arith)
                  | inr (e, failed) ↦ absurd (ground arith)
                ]
    ]

module _ (sv : Survey) (allow voter : Text) (choices : List Text) (comment fresh : Text)
    (now : ℕ) where
  plain_seen :
      (db : Tables) (sid : Text) (prev : Option Response) (r : Response)
      → IsKnown db sid voter sv
      → load_response db sid voter true ≡ prev
      → r ≡ response_of sv prev allow voter choices comment fresh now
      → write_seen prev r db.seen ≡ insert_or_ignore r.id r.seen db.seen
  unfolding response_of
  plain_seen db sid none r k loaded e = insert_seen_or_ignore db.seen r
  plain_seen db sid (some p) r k loaded e =
      write_seen_lem db.seen p r
        ((marks-load_response db sid voter p loaded).1 ∙ ap (load_ids db.seen) (ground arith))
        (k.distinct p loaded)
        (subst (Within p.seen) (ground arith)
          (prev_seen-Within sv (some p) allow (k.known p loaded)))

-- Where the stored seen set of the respondent lists options of the survey, each once, an
-- accepted submission leaves in the tables, for its response, exactly its choices and, as seen,
-- what was stored as seen or what it has seen now, and for every other response what there was.
pub save_response_tx-Wrote :
    (db : Tables) (sid voter : Text) (choices : List Text) (comment allow : Text) (preview : Bool)
    (fresh : Text) (now : ℕ) (r : Response) (db' : Tables)
    → ((sv : Survey) → load_survey db sid ≡ some sv → IsKnown db sid voter sv)
    → save_response_tx db sid voter choices comment allow preview fresh now ≡ ok (r, db')
    → Wrote db db' r
save_response_tx-Wrote db sid voter choices comment allow preview fresh now r db' k h =
    let (sv, found, _, e, wrote) =
      save_response_tx-eq-ok db sid voter choices comment allow preview fresh now r db' h in
    write_response-Wrote db db' sid (load_response db sid voter true) r
      (subst (λ (x : Response). Distinct x.choices) (sym e)
        (unfold response_of in choices-Distinct sv (load_response db sid voter true) allow choices))
      (plain_seen sv allow voter choices comment fresh now db sid _ r (k sv found) refl e) wrote

prev-Within :
    (db : Tables) (sid voter : Text) (prev : Option Response)
    → IsCovered db
    → load_response db sid voter true ≡ prev
    → Within (prev_choices prev) (prev_seen prev)
unfolding has
prev-Within db sid voter none c e id h = absurd (ground arith)
prev-Within db sid voter (some p) c e id h =
    let (q, s) = marks-load_response db sid voter p e in
    subst (λ l. has id l ≡ true) (sym s) (c p.id id (subst (λ l. has id l ≡ true) q h))

-- If every stored choice is covered by what is stored as seen, and the stored seen set of the
-- respondent lists options of the survey, each once, then an accepted submission keeps every
-- stored choice covered, for all responses: nobody is recorded as having chosen what they are
-- not recorded as having seen.
pub save_response_tx-IsCovered :
    (db : Tables) (sid voter : Text) (choices : List Text) (comment allow : Text) (preview : Bool)
    (fresh : Text) (now : ℕ) (r : Response) (db' : Tables)
    → IsCovered db
    → ((sv : Survey) → load_survey db sid ≡ some sv → IsKnown db sid voter sv)
    → save_response_tx db sid voter choices comment allow preview fresh now ≡ ok (r, db')
    → IsCovered db'
save_response_tx-IsCovered db sid voter choices comment allow preview fresh now r db' c k h rid id =
    let w = save_response_tx-Wrote db sid voter choices comment allow preview fresh now r db' k h in
    let (sv, found, _, e, wrote) =
      save_response_tx-eq-ok db sid voter choices comment allow preview fresh now r db' h in
    let own : Within r.choices r.seen =
      subst (λ (x : Response). Within x.choices x.seen) (sym e)
        (unfold response_of in
          choices-Within-seen sv (load_response db sid voter true) allow choices
            (prev-Within db sid voter _ c refl)) in
    λ m. ground (arith, w.choices rid, w.seen rid id, own id, c rid id)
