-- ===== src/Survey/Edit/Chains.antt =====
-- The merge chains of a survey under the edits of internal/store/survey.go.
use quicksurvey.Base.{
  ℕ, zero, suc, ◌≡◌, refl, sym, subst, ◌⊎◌, inl, inr, ◌∙◌, ◌≢◌, false, Bool, some, List, [], ◌∷◌,
  ◌++◌, arith, Text, Option-cases, Bool-cases, Result-cases, trim_space, ok, text_discrete,
}
use quicksurvey.Survey.{
  SurveyOption, Survey, OptionStatus, approved, pending, rejected, removed, merged, find_option,
  moves_on, is_merged, is_approved,
}
use quicksurvey.Survey.Merge.{Ends, IsAcyclic}
use quicksurvey.Survey.Edit.{
  update_last, with_status, new_status, set_option_status, add_option, is_some,
}

find-update_last_ne :
    (j id : Text) (p : OptionStatus × Text) (os : List SurveyOption)
    → j ≢ id
    → find_option j (update_last id (with_status p) os) ≡ find_option j os
unfolding find_option update_last
find-update_last_ne j id p [] h = refl
find-update_last_ne j id p (o ∷ os) h = ground (arith, find-update_last_ne j id p os h)

-- What a lookup of the changed id finds: the option as it was, if an earlier option has the id too.
find-update_last :
    (id : Text) (p : OptionStatus × Text) (os : List SurveyOption)
    → (find_option id (update_last id (with_status p) os) ≡ find_option id os)
      ⊎ ((o : SurveyOption) × (find_option id (update_last id (with_status p) os)
            ≡ some (with_status p o)))
unfolding find_option update_last
find-update_last id p [] = inl refl
find-update_last id p (o ∷ os) = elim (text_discrete o.id id) [
  | yes here ↦ elim (Bool-cases (is_some (find_option id os))) [
    | inl more ↦ inl (ground arith)
    | inr last ↦ inr (o, ground arith)
  ]
  | no there ↦ elim (Bool-cases (is_some (find_option id os))) [
    | inl more ↦ elim (find-update_last id p os) [
      | inl kept ↦ inl (ground arith)
      | inr (x, changed) ↦ inr (x, ground arith)
    ]
    | inr none_left ↦ elim (find-update_last id p os) [
      | inl kept ↦ inl (ground arith)
      | inr (x, changed) ↦ inr (x, ground arith)
    ]
  ]
]

-- A chain lives on in options where each id on it is found as before, or now stops.
Ends-change :
    (os os' : List SurveyOption)
    → ((j : Text)
        → (find_option j os' ≡ find_option j os) ⊎ ((n : ℕ) × (r : Text × Bool) × Ends os' n j r))
    → (n : ℕ) (id : Text) (r : Text × Bool) → Ends os n id r
    → (m : ℕ) × (s : Text × Bool) × Ends os' m id s
Ends-change os os' change zero id r e = elim (change id) [
  | inl kept ↦ (0, r, rw kept e)
  | inr other ↦ other
]
Ends-change os os' change (suc n) id r (o, found, moves, e) = elim (change id) [
  | inl kept ↦
      let (m, s, rest) = Ends-change os os' change n o.merged_into r e in
      (suc m, s, (o, kept ∙ found, moves, rest))
  | inr other ↦ other
]

IsAcyclic-change :
    (os os' : List SurveyOption)
    → ((j : Text)
        → (find_option j os' ≡ find_option j os) ⊎ ((n : ℕ) × (r : Text × Bool) × Ends os' n j r))
    → IsAcyclic os
    → IsAcyclic os'
IsAcyclic-change os os' change acyclic id =
    let (n, r, e) = acyclic id in Ends-change os os' change n id r e

-- An id whose option is not handed on stops there.
Ends-here :
    (os : List SurveyOption) (id : Text) (o : SurveyOption)
    → find_option id os ≡ some o
    → moves_on o ≡ false
    → (n : ℕ) × (r : Text × Bool) × Ends os n id r
Ends-here os id o found stays = (0, (o.id, is_approved o.status), inr (o, found, stays, refl))

-- What the guards of `SetOptionStatus` let through: an option that keeps its votes, or a merge into
-- another option that is there and is not merged itself.
new_status-merge :
    (sv : Survey) (id : Text) (status : OptionStatus) (into : Text) (p : OptionStatus × Text)
    → new_status sv id status into ≡ ok p
    → (is_merged p.0 ≡ false)
      ⊎ ((t : SurveyOption) × (find_option into sv.options ≡ some t)
          × (is_merged t.status ≡ false)
          × (into ≢ id)
          × (p.1 ≡ into))
unfolding new_status
new_status-merge sv id approved into p h = inl (ground arith)
new_status-merge sv id pending into p h = inl (ground arith)
new_status-merge sv id rejected into p h = inl (ground arith)
new_status-merge sv id removed into p h = inl (ground arith)
new_status-merge sv id merged into p h = elim (Option-cases (find_option into sv.options)) [
  | inl absent ↦ absurd (ground arith)
  | inr (t, found) ↦ inr (t, found, ground arith, (λ e. ground arith), ground arith)
]
new_status-merge sv id (OptionStatus.other s) into p h = absurd (ground arith)

-- After the status of one option is set to what `new_status` allows, its chain ends.
Ends-update_last :
    (sv : Survey) (id : Text) (status : OptionStatus) (into : Text) (p : OptionStatus × Text)
    (o : SurveyOption)
    → new_status sv id status into ≡ ok p
    → find_option id (update_last id (with_status p) sv.options) ≡ some (with_status p o)
    → (n : ℕ) × (r : Text × Bool) × Ends (update_last id (with_status p) sv.options) n id r
Ends-update_last sv id status into p o h found = elim (new_status-merge sv id status into p h) [
  | inl keeps ↦ Ends-here _ id (with_status p o) found (ground arith)
  | inr (t, there, stays, apart, e) ↦ elim (Bool-cases (moves_on (with_status p o))) [
    | inr stopped ↦ Ends-here _ id (with_status p o) found stopped
    | inl moves ↦
        let kept = find-update_last_ne into id p sv.options apart ∙ there in
        let (n, r, rest) = Ends-here _ into t kept (ground arith) in
        (
          suc n,
          r,
          (
            with_status p o,
            found,
            moves,
            subst (λ i. Ends (update_last id (with_status p) sv.options) n i r) (sym e) rest,
          ),
        )
  ]
]

-- Setting an option's status, a merge included, leaves no chain of merges that runs in a circle, if
-- none did before.
pub set_option_status-IsAcyclic :
    (sv : Survey) (id : Text) (status : OptionStatus) (into : Text) {sv' : Survey}
    → IsAcyclic sv.options
    → set_option_status sv id status into ≡ ok sv'
    → IsAcyclic sv'.options
unfolding set_option_status
set_option_status-IsAcyclic sv id status into {sv'} acyclic h =
    elim (Result-cases (new_status sv id status into)) [
      | inr (e, refused) ↦ absurd (ground arith)
      | inl (p, allowed) ↦
          let e : sv'.options ≡ update_last id (with_status p) sv.options = ground arith in
          rw e (IsAcyclic-change sv.options _ (change p allowed) acyclic)
    ]
  where
    change :
        (p : OptionStatus × Text)
        → new_status sv id status into ≡ ok p
        → (j : Text)
        → (find_option j (update_last id (with_status p) sv.options) ≡ find_option j sv.options)
          ⊎ ((n : ℕ) × (r : Text × Bool) × Ends (update_last id (with_status p) sv.options) n j r)
    change p allowed j = elim (text_discrete j id) [
      | no apart ↦ inl (find-update_last_ne j id p sv.options apart)
      | yes here ↦ rw here (elim (find-update_last id p sv.options) [
        | inl kept ↦ inl kept
        | inr (o, changed) ↦ inr (Ends-update_last sv id status into p o allowed changed)
      ])
    ]

find-append :
    (j : Text) (os : List SurveyOption) (o : SurveyOption)
    → (find_option j (os ++ (o ∷ [])) ≡ find_option j os)
      ⊎ ((find_option j (os ++ (o ∷ [])) ≡ some o) × (o.id ≡ j))
unfolding find_option
find-append j [] o = elim (text_discrete o.id j) [
  | yes e ↦ inr (ground arith, e)
  | no n ↦ inl (ground arith)
]
find-append j (x ∷ os) o = elim (find-append j os o) [
  | inl kept ↦ inl (ground arith)
  | inr (new, e) ↦ elim (text_discrete x.id j) [
    | yes old ↦ inl (ground arith)
    | no other ↦ inr (ground arith, e)
  ]
]

-- Adding an option, whatever its id, leaves no chain of merges that runs in a circle, if none
-- did before.
pub add_option-IsAcyclic :
    (sv : Survey) (raw : Text) (status : OptionStatus) (source fresh : Text) (now : ℕ)
    {sv' : Survey} {id : Text}
    → IsAcyclic sv.options
    → add_option sv raw status source fresh now ≡ ok (sv', id)
    → IsAcyclic sv'.options
unfolding add_option
add_option-IsAcyclic sv raw status source fresh now {sv'} acyclic h =
    let o : SurveyOption = record {
      id = fresh;
      text = trim_space raw;
      status = status;
      source = source;
      merged_into = [];
      created = now;
    } in
    let e : sv'.options ≡ sv.options ++ (o ∷ []) = ground arith in
    rw e (IsAcyclic-change sv.options _ (change o refl) acyclic)
  where
    change :
        (o : SurveyOption)
        → o.merged_into ≡ []
        → (j : Text)
        → (find_option j (sv.options ++ (o ∷ [])) ≡ find_option j sv.options)
          ⊎ ((n : ℕ) × (r : Text × Bool) × Ends (sv.options ++ (o ∷ [])) n j r)
    change o blank j = elim (find-append j sv.options o) [
      | inl kept ↦ inl kept
      | inr (new, _) ↦ inr (Ends-here _ j o new (ground arith))
    ]
