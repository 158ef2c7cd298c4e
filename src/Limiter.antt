-- ===== src/Limiter.antt =====
-- internal/web/ratelimit.go: a bounded set of token buckets, one for each client.
--
-- A bucket's arithmetic is golang.org/x/time/rate, which is a parameter. Times are nanoseconds.
pub mod Bounds
use quicksurvey.Base.{
  ℕ, suc, ◌-◌, ◌*◌, ◌≡◌, ltb, leb, ◌==◌, if◌then◌else◌, Bool, true, false, not, Option, none, some,
  List, [], ◌∷◌, ◌++◌, filter, length, Text, same,
}

-- `rate.Limiter`: a new one, whether a token is there at a time, and `Allow`, which takes one. What
-- is relied on: a new bucket has a token, and `Allow` grants exactly when one is there.
pub record Rate : Type 1 where
  pub Bucket : Type 0
  pub fresh : Bucket
  pub enough : ℕ → Bucket → Bool
  pub allow : ℕ → Bucket → Bool × Bucket
  pub fresh_enough : (now : ℕ) → enough now fresh ≡ true
  pub allow_enough : (now : ℕ) (b : Bucket) → (allow now b).0 ≡ enough now b

abbrev pub sweep_every : ℕ
sweep_every = 120_000_000_000

abbrev pub limiter_ttl : ℕ
limiter_ttl = 900_000_000_000

abbrev pub limiter_max : ℕ
limiter_max = 20_000

module _ (rate : Rate) where
  open rate use {Bucket}

  pub record Entry : Type 0 where
    pub key : Text
    pub lim : Bucket
    pub seen : ℕ

  pub record Limiter : Type 0 where
    pub ttl : ℕ
    pub max : ℕ
    pub buckets : List Entry
    pub swept : ℕ

  -- No limiter, for no limit, where `n` is 0 or less.
  unfoldable pub new_limiter : (n now : ℕ) → Option Limiter
  new_limiter n now =
      if n == 0
      then none
      else some (record { ttl = limiter_ttl; max = limiter_max; buckets = []; swept = now })

  unfoldable pub find_entry : Text → List Entry → Option Entry
  find_entry key [] = none
  find_entry key (b ∷ bs) = if same b.key key then some b else find_entry key bs

  -- The bucket of the key replaced.
  unfoldable pub put_entry : Entry → List Entry → List Entry
  put_entry e [] = []
  put_entry e (b ∷ bs) = let rest = b ∷ put_entry e bs in if same b.key e.key then e ∷ bs else rest

  unfoldable pub has_budget : Limiter → Text → (now : ℕ) → Bool × Limiter
  has_budget l key now = elim (find_entry key l.buckets) [
    | none ↦ (ltb (length l.buckets) l.max, l)
    | some b ↦ (
      rate.enough now b.lim,
      record l { buckets = put_entry (record b { seen = now }) l.buckets },
    )
  ]

  unfoldable pub sweep : Limiter → (now : ℕ) → Limiter
  sweep l now =
      if ltb sweep_every (now - l.swept)
      then record l { buckets = filter (λ b. leb (now - b.seen) l.ttl) l.buckets; swept = now }
      else l

  -- The charge against a bucket that is there.
  unfoldable pub charge : Limiter → Entry → (now : ℕ) → Bool × Limiter
  charge l b now =
      let (granted, lim) = rate.allow now b.lim in
      (granted, record l { buckets = put_entry (record b { lim = lim; seen = now }) l.buckets })

  unfoldable pub admit : Limiter → Text → (now : ℕ) → Bool × Limiter
  unfolding charge
  admit l key now = elim (find_entry key l.buckets) [
    | some b ↦ charge l b now
    | none ↦
        let b : Entry = record { key = key; lim = rate.fresh; seen = now } in
        if leb l.max (length l.buckets)
        then (false, l)
        else charge (record l { buckets = b ∷ l.buckets }) b now
  ]

  unfoldable pub allow : Limiter → Text → (now : ℕ) → Bool × Limiter
  unfolding sweep
  allow l key now = admit (sweep l now) key now

  unfoldable pub spend : Limiter → Text → (now : ℕ) → Limiter
  spend l key now = (allow l key now).1
