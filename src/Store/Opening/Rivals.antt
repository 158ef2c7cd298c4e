-- ===== src/Store/Opening/Rivals.antt =====
-- Processes that open one database of internal/store/store.go at a time: `loadOrCreateSecret` reads the
-- key and, where there is none, writes one of its own, in two statements outside a transaction.
use quicksurvey.Base.{
  ◌⊎◌, ◌≡◌, refl, subst, inl, inr, Option, none, some, List, [], ◌∷◌, ◌++◌, length, All, All-append,
  append-All, Text, arith,
}
use quicksurvey.Store.Opening.{read_secret}
use quicksurvey.Store.Opening.Opened.{IsKey}

-- A process is about to read, has found no key, or holds one.
pub data KeyState : Type 0 where
  starting : KeyState
  minting : KeyState
  holding : Text → KeyState

pub record Opener : Type 0 where
  pub drawn : Text
  pub at : KeyState

-- What a process knows after it has read.
unfoldable pub read_step : Option Text → KeyState
unfolding read_secret
read_step stored = elim (read_secret stored) [ none ↦ minting | some k ↦ holding k ]

pub record Shared : Type 0 where
  pub stored : Option Text
  pub openers : List Opener

pub data OpenStep (s : Shared) : Shared → Type 0 where
  reads :
      (before after : List Opener) (p : Opener)
      → s.openers ≡ before ++ (p ∷ after)
      → p.at ≡ starting
      → OpenStep s (record s { openers = before ++ (record p { at = read_step s.stored } ∷ after) })
  writes :
      (before after : List Opener) (p : Opener)
      → s.openers ≡ before ++ (p ∷ after)
      → p.at ≡ minting
      → OpenStep s (record {
        stored = some p.drawn;
        openers = before ++ (record p { at = holding p.drawn } ∷ after);
      })

pub data OpenReach (s : Shared) : Shared → Type 0 where
  here : OpenReach s s
  next : {t u : Shared} → OpenReach s t → OpenStep t u → OpenReach s u

abbrev pub opener : Text → Opener
opener drawn = record { drawn = drawn; at = starting }

-- A process has not read yet, or holds the key.
abbrev pub Agrees : Text → Opener → Type 0
Agrees k p = (p.at ≡ starting) ⊎ (p.at ≡ holding k)

abbrev pub Agree : Text → Shared → Type 0
Agree k s = IsKey s.stored k × All (Agrees k) s.openers

replace-All :
    (k : Text) (before after : List Opener) (p q : Opener)
    → All (Agrees k) (before ++ (p ∷ after))
    → Agrees k q
    → All (Agrees k) (before ++ (q ∷ after))
replace-All k before after p q all agrees =
    let (front, back) = append-All (Agrees k) before (p ∷ after) all in
    All-append (Agrees k) before (q ∷ after) front (agrees, back.1)

one-All :
    (k : Text) (before after : List Opener) (p : Opener)
    → All (Agrees k) (before ++ (p ∷ after))
    → Agrees k p
one-All k before after p all = (append-All (Agrees k) before (p ∷ after) all).1.0

OpenStep-Agree : (k : Text) (s t : Shared) → Agree k s → OpenStep s t → Agree k t
unfolding read_step
OpenStep-Agree k s t (held, agrees) (reads before after p e at) =
    let all = subst (All (Agrees k)) e agrees in
    (
      held,
      replace-All k before after p (record p { at = read_step s.stored }) all
          (inr (ground (arith, held))),
    )
OpenStep-Agree k s t (held, agrees) (writes before after p e at) =
    let mine = one-All k before after p (subst (All (Agrees k)) e agrees) in
    absurd (elim mine [
      | inl starts ↦ ground (arith, starts, at)
      | inr holds ↦ ground (arith, holds, at)
    ])

-- Where a key is stored, and every process that opens the database has not read yet or holds that
-- key, so it is after any steps of theirs, in any order.
pub OpenReach-Agree : (k : Text) (s t : Shared) → Agree k s → OpenReach s t → Agree k t
OpenReach-Agree k s t agree here = agree
OpenReach-Agree k s t agree (next {t = u} reach step) =
    OpenStep-Agree k u t (OpenReach-Agree k s u agree reach) step

-- Where no key is stored and two processes that draw keys of 32 bytes open the database at a time, both
-- may end up with the key they drew, the second writer's being stored: the next process that opens
-- the database holds that one.
pub openers-apart :
    (stored : Option Text) (k l : Text)
    → read_secret stored ≡ none
    → length l ≡ 32
    → let apart : Shared = record {
      stored = some l;
      openers = record (opener k) { at = holding k } ∷ record (opener l) { at = holding l } ∷ [];
    } in
      OpenReach (record { stored = stored; openers = opener k ∷ opener l ∷ [] }) apart
      × (read_step apart.stored ≡ holding l)
unfolding read_step read_secret
openers-apart stored k l absent long =
    let waits : Text → Opener = λ drawn. record (opener drawn) { at = minting } in
    let minted : read_step stored ≡ minting = ground (arith, absent) in
    (
      next
          (next
            (next
              (next here (
                subst
                  (λ at.
                    OpenStep (record { stored = stored; openers = opener k ∷ opener l ∷ [] })
                      (record {
                        stored = stored;
                        openers = record (opener k) { at = at } ∷ opener l ∷ [];
                      }))
                  minted (reads [] (opener l ∷ []) (opener k) refl refl)))
              (subst
                (λ at.
                  OpenStep (record { stored = stored; openers = waits k ∷ opener l ∷ [] })
                    (record {
                      stored = stored;
                      openers = waits k ∷ record (opener l) { at = at } ∷ [];
                    }))
                minted (reads (waits k ∷ []) [] (opener l) refl refl)))
            (writes [] (waits l ∷ []) (waits k) refl refl))
          (writes (record (opener k) { at = holding k } ∷ []) [] (waits l) refl refl),
      ground (arith, long),
    )
