-- ===== src/Limiter/Bounds.antt =====
-- How many buckets the limiter of internal/web/ratelimit.go holds, and the check without a charge
-- against the charge.
use quicksurvey.Base.{
  ℕ, ◌≤◌, ◌<◌, ◌-◌, ◌≡◌, refl, ◌∙◌, subst, ◌⊎◌, inl, inr, ltb, leb, Bool, true, Option-cases,
  Bool-cases, none, List, [], ◌∷◌, filter, length, length-filter-le, Text, text_discrete, arith,
}
use quicksurvey.Limiter.{
  Rate, Entry, Limiter, find_entry, put_entry, has_budget, sweep, charge, admit, allow, spend,
  sweep_every,
}

module _ (rate : Rate) where
  length-put_entry :
      (e : Entry rate) (bs : List (Entry rate)) → length (put_entry rate e bs) ≡ length bs
  unfolding put_entry
  length-put_entry e [] = refl
  length-put_entry e (b ∷ bs) = ground (arith, length-put_entry e bs)

  sweep-le : (l : Limiter rate) (now : ℕ) → length (sweep rate l now).buckets ≤ length l.buckets
  unfolding sweep
  sweep-le l now =
      ground (arith, length-filter-le (λ (b : Entry rate). leb (now - b.seen) l.ttl) l.buckets)

  max-sweep : (l : Limiter rate) (now : ℕ) → (sweep rate l now).max ≡ l.max
  unfolding sweep
  max-sweep l now = ground arith

  abbrev pub IsBounded : Limiter rate → Type 0
  IsBounded l = length l.buckets ≤ l.max

  charge-le :
      (l : Limiter rate) (b : Entry rate) (now : ℕ)
      → (length (charge rate l b now).1.buckets ≡ length l.buckets)
        × ((charge rate l b now).1.max ≡ l.max)
  unfolding charge
  charge-le l b now =
      (length-put_entry (record b { lim = (rate.allow now b.lim).1; seen = now }) l.buckets, refl)

  admit-IsBounded :
      (l : Limiter rate) (key : Text) (now : ℕ) → IsBounded l → IsBounded (admit rate l key now).1
  unfolding admit
  admit-IsBounded l key now h = elim (Option-cases (find_entry rate key l.buckets)) [
    | inr (b, found) ↦
        rw (found, admit)
          (omega (
            arith,
            length-put_entry (record b { lim = (rate.allow now b.lim).1; seen = now }) l.buckets,
          ))
    | inl new ↦ elim (Bool-cases (leb l.max (length l.buckets))) [
      | inl full ↦ rw (new, admit, full) h
      | inr room ↦
          let b : Entry rate = record { key = key; lim = rate.fresh; seen = now } in
          let e = length-put_entry (record b { lim = (rate.allow now b.lim).1 }) (b ∷ l.buckets) in
          let k : length l.buckets < l.max = ground arith in rw (new, admit, room) (omega arith)
    ]
  ]

  -- A charge keeps the number of buckets within the ceiling.
  pub allow-IsBounded :
      (l : Limiter rate) (key : Text) (now : ℕ) → IsBounded l → IsBounded (allow rate l key now).1
  unfolding allow
  allow-IsBounded l key now h =
      admit-IsBounded (sweep rate l now) key now (omega (arith, sweep-le l now, max-sweep l now))

  pub run_charges : Limiter rate → List (ℕ × Text) → Limiter rate
  run_charges l [] = l
  run_charges l ((now, key) ∷ calls) = run_charges (spend rate l key now) calls

  -- After any sequence of charges there are no more buckets than the ceiling allows, if there
  -- were not before: a caller cannot choose how much memory the limiter takes.
  pub run_charges-IsBounded :
      (l : Limiter rate) (calls : List (ℕ × Text)) → IsBounded l → IsBounded (run_charges l calls)
  unfolding run_charges spend
  run_charges-IsBounded l [] h = h
  run_charges-IsBounded l ((now, key) ∷ calls) h =
      run_charges-IsBounded (spend rate l key now) calls (allow-IsBounded l key now h)

  -- What is granted: a token of the client's bucket, or a place for a new one.
  admit-grants :
      (l : Limiter rate) (key : Text) (now : ℕ)
      → (admit rate l key now).0 ≡ (has_budget rate l key now).0
  unfolding admit has_budget
  admit-grants l key now = elim (Option-cases (find_entry rate key l.buckets)) [
    | inr (b, found) ↦ rw (found, admit, has_budget) (rate.allow_enough now b.lim)
    | inl new ↦ elim (Bool-cases (leb l.max (length l.buckets))) [
      | inl full ↦ rw (new, admit, has_budget, full) (ground arith)
      | inr room ↦
          rw (new, admit, has_budget, room)
            (rate.allow_enough now rate.fresh ∙ rate.fresh_enough now ∙ ground arith)
    ]
  ]

  -- A key has one bucket, as in a Go map.
  abbrev pub DistinctKeys : List (Entry rate) → Type 0
  DistinctKeys [] = Unit {0}
  DistinctKeys (b ∷ bs) = (find_entry rate b.key bs ≡ none) × DistinctKeys bs

  module _ (p : Entry rate → Bool) (key : Text) where
    find-filter_absent :
        (bs : List (Entry rate))
        → find_entry rate key bs ≡ none
        → find_entry rate key (filter p bs) ≡ none
    unfolding find_entry filter
    find-filter_absent [] h = refl
    find-filter_absent (b ∷ bs) h = ground (arith, find-filter_absent bs)

    -- A sweep leaves a client's bucket, or makes room.
    find-filter :
        (bs : List (Entry rate))
        → DistinctKeys bs
        → (find_entry rate key (filter p bs) ≡ find_entry rate key bs)
          ⊎ ((find_entry rate key (filter p bs) ≡ none) × (length (filter p bs) < length bs))
    unfolding find_entry filter
    find-filter [] d = inl refl
    find-filter (b ∷ bs) d = elim (Bool-cases (p b)) [
      | inl kept ↦ elim (find-filter bs d.1) [
        | inl same_as ↦ inl (rw (kept, same_as))
        | inr (gone, less) ↦ elim (text_discrete b.key key) [
          | yes e ↦ inl (ground arith)
          | no n ↦ inr (ground arith, ground arith)
        ]
      ]
      | inr dropped ↦ elim (text_discrete b.key key) [
        | yes e ↦
            let k = find-filter_absent bs (subst (λ i. find_entry rate i bs ≡ none) e d.0) in
            inr (rw dropped k, rw dropped (omega (arith, length-filter-le p bs)))
        | no n ↦ elim (find-filter bs d.1) [
          | inl same_as ↦ inl (ground arith)
          | inr (gone, less) ↦ inr (rw dropped gone, rw dropped (omega arith))
        ]
      ]
    ]

  budget-sweep :
      (l : Limiter rate) (key : Text) (now : ℕ)
      → IsBounded l
      → DistinctKeys l.buckets
      → (has_budget rate l key now).0 ≡ true
      → (has_budget rate (sweep rate l now) key now).0 ≡ true
  unfolding sweep has_budget
  budget-sweep l key now h d ok = elim (Bool-cases (ltb sweep_every (now - l.swept))) [
    | inr not_due ↦ rw not_due ok
    | inl due ↦
        rw due (elim (find-filter (λ (b : Entry rate). leb (now - b.seen) l.ttl) key l.buckets d) [
          | inr (gone, less) ↦ ground arith
          | inl same_as ↦ elim (Option-cases (find_entry rate key l.buckets)) [
            | inr (b, found) ↦ ground arith
            | inl new ↦
                ground
                  (arith, length-filter-le (λ (b : Entry rate). leb (now - b.seen) l.ttl) l.buckets)
          ]
        ])
  ]

  -- While the buckets are within the ceiling and no client has two, the check that spends
  -- nothing agrees with the charge: a client that has budget left is let through by a charge at
  -- the same time, also when the charge sweeps the client's bucket away.
  pub allow-has_budget :
      (l : Limiter rate) (key : Text) (now : ℕ)
      → IsBounded l
      → DistinctKeys l.buckets
      → (has_budget rate l key now).0 ≡ true
      → (allow rate l key now).0 ≡ true
  unfolding allow
  allow-has_budget l key now h d ok =
      admit-grants (sweep rate l now) key now ∙ budget-sweep l key now h d ok
