-- ===== src/Documents/Restore/Written.antt =====
-- What `insertResponses` of internal/store/portable.go leaves to be read, where no row is in its way.
use quicksurvey.Base.{
  ◌≡◌, refl, ◌∙◌, sym, ap, if◌then◌else◌, Bool, true, false, ◌||◌, List, [], ◌∷◌, ◌++◌, map, any,
  All, Text, same, same_refl, arith, ok,
}
use mathlib.Core.List.{append-nil, append_assoc}
use quicksurvey.Tables.{Tables, ResponseRow, Mark}
use quicksurvey.Response.{Response, has}
use quicksurvey.Response.Sets.{Distinct, has-snoc}
use quicksurvey.Response.Save.{
  load_ids, is_mark, mark, row_of, insert_choices, insert_seen, insert_or_ignore,
}
use quicksurvey.Response.Stored.{
  has-load_ids, load_ids-snoc, load_ids-insert_choices, insert_seen_lem,
}
use quicksurvey.Documents.Restore.{row_clash, insert_response, insert_responses}

-- Where nothing is there yet, the two kinds of insertion do the same.
insert_or_ignore_new :
    (rid : Text) (ids : List Text) (ms : List Mark)
    → Distinct ids
    → ((id : Text) → has id ids ≡ true → has id (load_ids ms rid) ≡ false)
    → insert_choices rid ids ms ≡ ok (insert_or_ignore rid ids ms)
unfolding insert_choices insert_or_ignore has
insert_or_ignore_new rid [] ms d fresh = refl
insert_or_ignore_new rid (id ∷ ids) ms d fresh =
    let new : any (is_mark rid id) ms ≡ false =
      sym (has-load_ids ms rid id) ∙ fresh id (ground arith) in
    rw new (
      insert_or_ignore_new rid ids (ms ++ (mark rid id ∷ [])) d.1 (λ j h.
        rw (load_ids-snoc ms rid id rid, same_refl rid)
          (ground (arith, has-snoc j (load_ids ms rid) id, fresh j, d.0))))

abbrev Loads : List Mark → List Mark → Text → List Text → Type 0
Loads ms ms' rid ids =
    (other : Text)
    → load_ids ms' other ≡ (if same rid other then load_ids ms other ++ ids else load_ids ms other)

module _ (rid : Text) (ids : List Text) (ms : List Mark) (d : Distinct ids)
    (none_there : load_ids ms rid ≡ []) where
  fresh : (id : Text) → has id ids ≡ true → has id (load_ids ms rid) ≡ false
  unfolding has
  fresh id h = rw none_there refl

  load_ids-insert_seen : Loads ms (insert_seen rid ids ms) rid ids
  load_ids-insert_seen other =
      let (ms', stored, loads) = load_ids-insert_choices rid ids ms d fresh in
      let same_table : insert_seen rid ids ms ≡ ms' =
        insert_seen_lem rid ids ms
        ∙ (let e : ok (insert_or_ignore rid ids ms) ≡ ok ms' =
              sym (insert_or_ignore_new rid ids ms d fresh) ∙ stored in
            cc) in
      ap (λ l. load_ids l other) same_table ∙ loads other

-- A response that no stored row is in the way of, and that lists nothing twice.
pub record IsNew (db : Tables) (sid : Text) (r : Response) : Type 0 where
  pub row : any (row_clash sid r) db.responses ≡ false
  pub no_choices : load_ids db.choices r.id ≡ []
  pub no_seen : load_ids db.seen r.id ≡ []
  pub choices : Distinct r.choices
  pub seen : Distinct r.seen

-- Two responses of different respondents, under different ids.
abbrev pub Differs : Response → Response → Type 0
Differs r q = (same r.id q.id ≡ false) × (same r.voter q.voter ≡ false)

abbrev pub AllDiffer : List Response → Type 0
AllDiffer [] = Unit {0}
AllDiffer (r ∷ rs) = All (Differs r) rs × AllDiffer rs

-- The choices and the seen set of the response are stored.
abbrev pub IsHeld : Tables → Response → Type 0
IsHeld db r = (load_ids db.choices r.id ≡ r.choices) × (load_ids db.seen r.id ≡ r.seen)

record Inserted (db next : Tables) (sid : Text) (r : Response) : Type 0 where
  responses : next.responses ≡ db.responses ++ (row_of sid r ∷ [])
  surveys : next.surveys ≡ db.surveys
  options : next.options ≡ db.options
  choices : Loads db.choices next.choices r.id r.choices
  seen : Loads db.seen next.seen r.id r.seen

insert_response_new :
    (db : Tables) (sid : Text) (r : Response)
    → IsNew db sid r
    → (next : Tables) × (insert_response db sid r ≡ ok next) × Inserted db next sid r
unfolding insert_response
insert_response_new db sid r n =
    let (chosen, stored, loads) =
      load_ids-insert_choices r.id r.choices db.choices n.choices
        (fresh r.id r.choices db.choices n.choices n.no_choices) in
    (
      record db {
        responses = db.responses ++ (row_of sid r ∷ []);
        choices = chosen;
        seen = insert_seen r.id r.seen db.seen;
      },
      ground (arith, n.row, stored),
      record {
        responses = refl;
        surveys = refl;
        options = refl;
        choices = loads;
        seen = load_ids-insert_seen r.id r.seen db.seen n.seen n.no_seen;
      },
    )

any-snoc :
    (p : ResponseRow → Bool) (xs : List ResponseRow) (x : ResponseRow)
    → any p (xs ++ (x ∷ [])) ≡ (any p xs || p x)
unfolding any
any-snoc p [] x = ground arith
any-snoc p (y ∷ xs) x = ground (arith, any-snoc p xs x)

-- Another response is still new afterwards.
still-IsNew :
    (db next : Tables) (sid : Text) (r q : Response)
    → Inserted db next sid r
    → Differs r q
    → IsNew db sid q
    → IsNew next sid q
still-IsNew db next sid r q i (ids, voters) n = record {
  row =
      ap (any (row_clash sid q)) i.responses
      ∙ any-snoc (row_clash sid q) db.responses (row_of sid r)
      ∙ ground (arith, n.row, ids, voters);
  no_choices = i.choices q.id ∙ ground (arith, ids, n.no_choices);
  no_seen = i.seen q.id ∙ ground (arith, ids, n.no_seen);
  choices = n.choices;
  seen = n.seen;
}

all_still-IsNew :
    (db next : Tables) (sid : Text) (r : Response) (qs : List Response)
    → Inserted db next sid r
    → All (Differs r) qs
    → All (IsNew db sid) qs
    → All (IsNew next sid) qs
all_still-IsNew db next sid r [] i d n = tt
all_still-IsNew db next sid r (q ∷ qs) i d n =
    (still-IsNew db next sid r q i d.0 n.0, all_still-IsNew db next sid r qs i d.1 n.1)

-- What there was for another response, which none of these is, is as it was.
abbrev Untouched : Tables → Tables → List Response → Type 0
Untouched db db' rs =
    (other : Text)
    → All (λ (r : Response). same r.id other ≡ false) rs
    → (load_ids db'.choices other ≡ load_ids db.choices other)
      × (load_ids db'.seen other ≡ load_ids db.seen other)

flipped :
    (r : Response) (qs : List Response)
    → All (Differs r) qs
    → All (λ (q : Response). same q.id r.id ≡ false) qs
flipped r [] d = tt
flipped r (q ∷ qs) d = (ground (arith, d.0.0), flipped r qs d.1)

-- Responses that nothing is in the way of are all inserted, each with its choices and its seen set.
pub insert_responses_new :
    (db : Tables) (sid : Text) (rs : List Response)
    → All (IsNew db sid) rs
    → AllDiffer rs
    → (db' : Tables) × (insert_responses db sid rs ≡ ok db')
      × (db'.responses ≡ db.responses ++ map (row_of sid) rs)
      × (db'.surveys ≡ db.surveys)
      × (db'.options ≡ db.options)
      × All (IsHeld db') rs
      × Untouched db db' rs
unfolding insert_responses
insert_responses_new db sid [] n d =
    (db, refl, sym (append-nil db.responses), refl, refl, tt, λ other h. (refl, refl))
insert_responses_new db sid (r ∷ rs) n d =
    let (next, one, i) = insert_response_new db sid r n.0 in
    let (db', rest, rows, svs, os, held, others) =
      insert_responses_new next sid rs (all_still-IsNew db next sid r rs i d.0 n.1) d.1 in
    let mine = others r.id (flipped r rs d.0) in
    (
      db',
      rw one rest,
      rows
          ∙ ap (λ l. l ++ map (row_of sid) rs) i.responses
          ∙ append_assoc db.responses (row_of sid r ∷ []) (map (row_of sid) rs),
      svs ∙ i.surveys,
      os ∙ i.options,
      (
        (
          mine.0 ∙ i.choices r.id ∙ rw (same_refl r.id, n.0.no_choices) refl,
          mine.1 ∙ i.seen r.id ∙ rw (same_refl r.id, n.0.no_seen) refl,
        ),
        held,
      ),
      λ other h.
          let k = others other h.1 in
          (k.0 ∙ i.choices other ∙ ground (arith, h.0), k.1 ∙ i.seen other ∙ ground (arith, h.0)),
    )
