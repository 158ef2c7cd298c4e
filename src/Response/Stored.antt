-- ===== src/Response/Stored.antt =====
-- What the statements on `choices` and `seen` of internal/store/response.go leave to be loaded for
-- each response, and the shortcuts that `saveResponseTx` and `insertSeen` take.
use quicksurvey.Base.{
  ℕ, zero, suc, ◌≤◌, ◌<◌, ◌==◌, ◌≡◌, refl, ◌∙◌, sym, ap, ◌⊎◌, inl, inr, if◌then◌else◌, true, false,
  ◌&&◌, ◌||◌, List, [], ◌∷◌, ◌++◌, arith, Text, same, text_discrete, Bool-cases, none, some, any,
  filter, take, drop, length, ok,
}
use mathlib.Core.Path.{subst₂}
use mathlib.Core.List.{append-nil, append_assoc}
use quicksurvey.Base.{same_refl, subst, ==_iff, take-append-drop, length-drop}
use quicksurvey.Response.{Response, has}
use quicksurvey.Response.Sets.{Within, Distinct, has-snoc, Within-of_length}
use quicksurvey.Tables.{Mark}
use quicksurvey.Response.Save.{
  load_ids, is_mark, mark, delete_marks, insert_choices, insert_or_ignore, insert_batches,
  insert_seen, write_seen,
}

pub has-load_ids :
    (ms : List Mark) (rid id : Text) → has id (load_ids ms rid) ≡ any (is_mark rid id) ms
unfolding has load_ids any
has-load_ids [] rid id = refl
has-load_ids (m ∷ ms) rid id = ground (arith, has-load_ids ms rid id)

pub load_ids-snoc :
    (ms : List Mark) (rid id other : Text)
    → load_ids (ms ++ (mark rid id ∷ [])) other
      ≡ (if same rid other then load_ids ms other ++ (id ∷ []) else load_ids ms other)
unfolding load_ids
load_ids-snoc [] rid id other = ground arith
load_ids-snoc (m ∷ ms) rid id other = ground (arith, load_ids-snoc ms rid id other)

pub load_ids-delete_marks :
    (rid other : Text) (ms : List Mark)
    → load_ids (delete_marks rid ms) other ≡ (if same rid other then [] else load_ids ms other)
unfolding load_ids delete_marks filter
load_ids-delete_marks rid other [] = ground arith
load_ids-delete_marks rid other (m ∷ ms) = ground (arith, load_ids-delete_marks rid other ms)

-- Distinct ids that are not stored yet are inserted without a violation, in order.
pub load_ids-insert_choices :
    (rid : Text) (ids : List Text) (ms : List Mark)
    → Distinct ids
    → ((id : Text) → has id ids ≡ true → has id (load_ids ms rid) ≡ false)
    → (ms' : List Mark) × (insert_choices rid ids ms ≡ ok ms')
      × ((other : Text)
          → load_ids ms' other
            ≡ (if same rid other then load_ids ms other ++ ids else load_ids ms other))
unfolding insert_choices has
load_ids-insert_choices rid [] ms d fresh =
    (ms, refl, λ other. ground (arith, append-nil (load_ids ms other)))
load_ids-insert_choices rid (id ∷ ids) ms d fresh =
    let (ms', stored, loads) =
      load_ids-insert_choices rid ids (ms ++ (mark rid id ∷ [])) d.1 (λ j h.
        rw (load_ids-snoc ms rid id rid, same_refl rid)
          (ground (arith, has-snoc j (load_ids ms rid) id, fresh j, d.0))) in
    (
      ms',
      rw (sym (has-load_ids ms rid id) ∙ fresh id (ground arith)) stored,
      λ other.
          loads other
          ∙ rw (load_ids-snoc ms rid id other)
              (ground (arith, append_assoc (load_ids ms other) (id ∷ []) ids)),
    )

-- INSERT OR IGNORE adds the ids to the set of the response, and leaves every other response's alone.
pub has-insert_or_ignore :
    (rid : Text) (ids : List Text) (ms : List Mark) (other id : Text)
    → has id (load_ids (insert_or_ignore rid ids ms) other)
      ≡ (has id (load_ids ms other) || (same rid other && has id ids))
unfolding insert_or_ignore has
has-insert_or_ignore rid [] ms other id = ground arith
has-insert_or_ignore rid (x ∷ ids) ms other id =
    has-insert_or_ignore rid ids (if any (is_mark rid x) ms then ms else ms ++ (mark rid x ∷ []))
      other id
    ∙ added (Bool-cases (any (is_mark rid x) ms))
  where
    row : List Mark
    row = if any (is_mark rid x) ms then ms else ms ++ (mark rid x ∷ [])

    added :
        (any (is_mark rid x) ms ≡ true) ⊎ (any (is_mark rid x) ms ≡ false)
        → (has id (load_ids row other) || (same rid other && has id ids))
          ≡ (has id (load_ids ms other) || (same rid other && (same x id || has id ids)))
    added (inl there) = rw there (elim (text_discrete rid other) [
      | yes e ↦ elim (text_discrete x id) [
        | yes q ↦ ground (
          arith,
          subst₂ (λ r i. has i (load_ids ms r) ≡ true) e q (has-load_ids ms rid x ∙ there),
        )
        | no n ↦ ground arith
      ]
      | no n ↦ ground arith
    ])
    added (inr absent) =
        rw (absent, load_ids-snoc ms rid x other)
          (ground (arith, has-snoc id (load_ids ms other) x))

insert_or_ignore_present :
    (rid : Text) (ids : List Text) (ms : List Mark)
    → Within ids (load_ids ms rid)
    → insert_or_ignore rid ids ms ≡ ms
unfolding insert_or_ignore has
insert_or_ignore_present rid [] ms w = refl
insert_or_ignore_present rid (id ∷ ids) ms w =
    rw (sym (has-load_ids ms rid id) ∙ w id (ground arith))
      (insert_or_ignore_present rid ids ms (λ j h. w j (ground arith)))

insert_or_ignore-append :
    (rid : Text) (xs ys : List Text) (ms : List Mark)
    → insert_or_ignore rid (xs ++ ys) ms ≡ insert_or_ignore rid ys (insert_or_ignore rid xs ms)
unfolding insert_or_ignore
insert_or_ignore-append rid [] ys ms = refl
insert_or_ignore-append rid (x ∷ xs) ys ms =
    insert_or_ignore-append rid xs ys
      (if any (is_mark rid x) ms then ms else ms ++ (mark rid x ∷ []))

insert_batches_lem :
    (fuel batch : ℕ) (rid : Text) (ids : List Text) (ms : List Mark)
    → 0 < batch
    → length ids ≤ fuel
    → insert_batches fuel batch rid ids ms ≡ insert_or_ignore rid ids ms
unfolding insert_batches
insert_batches_lem zero batch rid [] ms b h = unfold insert_or_ignore in refl
insert_batches_lem zero batch rid (id ∷ ids) ms b h = absurd (omega arith)
insert_batches_lem (suc f) batch rid [] ms b h = unfold insert_or_ignore in refl
insert_batches_lem (suc f) batch rid (id ∷ ids) ms b h =
    insert_batches_lem f batch rid (drop batch (id ∷ ids)) _ b
      (omega (arith, length-drop batch (id ∷ ids)))
    ∙ sym (insert_or_ignore-append rid (take batch (id ∷ ids)) (drop batch (id ∷ ids)) ms)
    ∙ ap (λ l. insert_or_ignore rid l ms) (take-append-drop batch (id ∷ ids))

-- Writing the seen set in batches of a thousand rows ends, with the table that one statement over
-- the whole set would give.
pub insert_seen_lem :
    (rid : Text) (ids : List Text) (ms : List Mark)
    → insert_seen rid ids ms ≡ insert_or_ignore rid ids ms
unfolding insert_seen
insert_seen_lem rid ids ms =
    insert_batches_lem (length ids) 1000 rid ids ms (omega arith) (omega arith)

-- Where the previous seen set is what the table holds for the response, lists nothing twice and
-- is within the new one, the writes that are left out when the two have the same length change
-- nothing: the table is the one that making all of them would give.
pub write_seen_lem :
    (ms : List Mark) (p r : Response)
    → p.seen ≡ load_ids ms r.id
    → Distinct p.seen
    → Within p.seen r.seen
    → write_seen (some p) r ms ≡ insert_or_ignore r.id r.seen ms
unfolding write_seen
write_seen_lem ms p r loaded d w = elim (Bool-cases (length r.seen == length p.seen)) [
  | inl equal ↦ rw equal (
      sym (
        insert_or_ignore_present r.id r.seen ms (
          subst (λ l. Within r.seen l) loaded
            (Within-of_length p.seen r.seen d w (omega (arith, (==_iff _ _).0 equal))))))
  | inr longer ↦ rw longer (insert_seen_lem r.id r.seen ms)
]

pub insert_seen_or_ignore :
    (ms : List Mark) (r : Response) → write_seen none r ms ≡ insert_or_ignore r.id r.seen ms
unfolding write_seen
insert_seen_or_ignore ms r = insert_seen_lem r.id r.seen ms
