-- ===== src/Middleware/Limit.antt =====
-- The rate limit as a rule on the history of admitted requests: what the queues compute.
use ppv_stream_rust.Prelude.{
  ℕ, ◌+◌, ◌-◌, ◌≤◌, String, ◌≡◌, refl, Bool, true, false, List, [], ◌∷◌, ◌++◌, ◌==◌, eq_iff, arith,
  if◌then◌else◌, ltb, leb, length, ◌∙◌, Bool-cases, inl, inr, ap,
}
use ppv_stream_rust.Middleware.{
  Request, Buckets, rate_limit_window, rate_limit_max_attempts, rate_key, should_rate_limit, expire,
  put_bucket, basic_rate_limit,
}

-- How many of the times `ts` lie in the window that ends at `now`.
abbrev pub count_recent : ℕ → List ℕ → ℕ
count_recent now [] = 0
count_recent now (t ∷ ts) = (if ltb rate_limit_window (now - t) then 0 else 1) + count_recent now ts

-- The times in a queue rise from `lo` to `hi`.
abbrev pub IsSpan : ℕ → ℕ → List ℕ → Type 0
IsSpan lo hi [] = lo ≤ hi
IsSpan lo hi (t ∷ ts) = (lo ≤ t) × IsSpan t hi ts

IsSpan-le : (lo lo' hi : ℕ) (ts : List ℕ) → lo ≤ lo' → IsSpan lo' hi ts → IsSpan lo hi ts
IsSpan-le lo lo' hi [] h k = omega arith
IsSpan-le lo lo' hi (t ∷ ts) h k = (omega arith, k.1)

expire-IsSpan : (now lo hi : ℕ) (ts : List ℕ) → IsSpan lo hi ts → IsSpan lo hi (expire now ts)
unfolding expire
expire-IsSpan now lo hi [] h = h
expire-IsSpan now lo hi (t ∷ ts) h = elim (Bool-cases (ltb rate_limit_window (now - t))) [
  | inl old ↦ rw old (expire-IsSpan now lo hi ts (IsSpan-le lo t hi ts h.0 h.1))
  | inr young ↦ rw young h
]

push-IsSpan :
    (lo hi now : ℕ) (ts : List ℕ) → hi ≤ now → IsSpan lo hi ts → IsSpan lo now (ts ++ now ∷ [])
push-IsSpan lo hi now [] h k = (omega arith, omega arith)
push-IsSpan lo hi now (t ∷ ts) h k = (k.0, push-IsSpan t hi now ts h k.1)

-- Behind a time in the window all times are in the window.
all_recent :
    (now lo hi : ℕ) (ts : List ℕ)
    → now - lo ≤ rate_limit_window
    → IsSpan lo hi ts
    → count_recent now ts ≡ length ts
all_recent now lo hi [] h k = refl
all_recent now lo hi (t ∷ ts) h k = ground (arith, all_recent now t hi ts (omega arith) k.1)

length-expire :
    (now lo hi : ℕ) (ts : List ℕ) → IsSpan lo hi ts → length (expire now ts) ≡ count_recent now ts
unfolding expire
length-expire now lo hi [] h = refl
length-expire now lo hi (t ∷ ts) h = elim (Bool-cases (ltb rate_limit_window (now - t))) [
  | inl old ↦ rw old (omega (arith, length-expire now t hi ts h.1))
  | inr young ↦ rw young (ground (arith, all_recent now t hi ts (ground arith) h.1))
]

-- What is popped has left every later window too.
count_recent-expire :
    (now later : ℕ) (ts : List ℕ)
    → now ≤ later
    → count_recent later (expire now ts) ≡ count_recent later ts
unfolding expire
count_recent-expire now later [] h = refl
count_recent-expire now later (t ∷ ts) h = ground (arith, count_recent-expire now later ts h)

count_recent-append :
    (now t : ℕ) (ts : List ℕ)
    → count_recent now (ts ++ t ∷ []) ≡ count_recent now (t ∷ []) + count_recent now ts
count_recent-append now t [] = omega arith
count_recent-append now t (u ∷ ts) = ground (arith, count_recent-append now t ts)

-- Every request that was admitted, with its key.
abbrev pub History : Type 0
History = List (String × ℕ)

abbrev pub count_of : String → ℕ → History → ℕ
count_of key now [] = 0
count_of key now ((k, t) ∷ hist) =
    (if k == key then count_recent now (t ∷ []) else 0) + count_of key now hist

-- The rule: a limited request is admitted if fewer than 20 of its key were in the last 300 seconds.
unfoldable pub sliding_window : Bool → Request → ℕ → History → Bool × History
sliding_window trust req now hist =
    let key = rate_key req trust in
    if should_rate_limit req.path req.method
    then (if leb rate_limit_max_attempts (count_of key now hist)
        then (false, hist)
        else (true, (key, now) ∷ hist))
    else (true, hist)

-- The decisions on a sequence of requests and their times.
unfoldable pub decisions {ℓ} :
    {S : Type ℓ} → (Request → ℕ → S → Bool × S) → List (Request × ℕ) → S → List Bool
decisions step [] st = []
decisions step ((req, now) ∷ reqs) st =
    let (ok, st') = step req now st in ok ∷ decisions step reqs st'

-- The clock does not go back.
abbrev pub IsClock : ℕ → List (Request × ℕ) → Type 0
IsClock last [] = Unit
IsClock last ((req, now) ∷ reqs) = (last ≤ now) × IsClock now reqs

-- The queues hold of the history what any window from `last` on can see.
abbrev pub Tracks : ℕ → Buckets → History → Type 0
Tracks last store hist =
    (key : String)
    → IsSpan 0 last (store key)
      × ((now : ℕ) → last ≤ now → count_recent now (store key) ≡ count_of key now hist)

module _ (trust : Bool) (req : Request) (last now : ℕ) (store : Buckets) (hist : History)
    (h : Tracks last store hist) (le : last ≤ now) where
  abbrev key : String
  key = rate_key req trust

  abbrev bucket : List ℕ
  bucket = expire now (store key)

  same_count : length bucket ≡ count_of key now hist
  same_count = length-expire now 0 last (store key) (h key).0 ∙ (h key).1 now le

  IsSpan-later : (hi : ℕ) (ts : List ℕ) (lo : ℕ) → hi ≤ now → IsSpan lo hi ts → IsSpan lo now ts
  IsSpan-later hi [] lo p k = omega arith
  IsSpan-later hi (t ∷ ts) lo p k = (k.0, IsSpan-later hi ts t p k.1)

  -- The queue of the key as it is left, and as the others are left.
  expired_agrees : (later : ℕ) → now ≤ later → count_recent later bucket ≡ count_of key later hist
  expired_agrees later p =
      count_recent-expire now later (store key) p ∙ (h key).1 later (omega arith)

  expired-IsSpan : IsSpan 0 last bucket
  expired-IsSpan = expire-IsSpan now 0 last (store key) (h key).0

  others_agree :
      (k : String)
      → IsSpan 0 now (store k)
        × ((later : ℕ) → now ≤ later → count_recent later (store k) ≡ count_of k later hist)
  others_agree k =
      (IsSpan-later last (store k) 0 le (h k).0, λ later p. (h k).1 later (omega arith))

  same_key : (k : String) → (key == k) ≡ true → key ≡ k
  same_key k e = ground (arith, eq_iff key k)

  Tracks-refused : Tracks now (put_bucket key bucket store) hist
  Tracks-refused k = elim (Bool-cases (key == k)) [
    | inl same ↦ rw same (
      IsSpan-later last bucket 0 le expired-IsSpan,
      λ later p. rw (← same_key k same) (expired_agrees later p),
    )
    | inr other ↦ rw other (others_agree k)
  ]

  Tracks-admitted : Tracks now (put_bucket key (bucket ++ now ∷ []) store) ((key, now) ∷ hist)
  Tracks-admitted k = elim (Bool-cases (key == k)) [
    | inl same ↦ rw same (
      push-IsSpan 0 last now bucket le expired-IsSpan,
      λ later p.
          count_recent-append later now bucket
          ∙ ap (λ n. count_recent later (now ∷ []) + n)
              (expired_agrees later p ∙ ap (λ x. count_of x later hist) (same_key k same)),
    )
    | inr other ↦
        rw other ((others_agree k).0, λ later p. omega (arith, (others_agree k).1 later p))
  ]

  -- One request: the same decision, and the queues keep up with the history.
  limit_step :
      let (ok, store') = basic_rate_limit trust req now store in
      let (ok', hist') = sliding_window trust req now hist in (ok ≡ ok') × Tracks now store' hist'
  unfolding basic_rate_limit sliding_window
  limit_step = elim (Bool-cases (should_rate_limit req.path req.method)) [
    | inl limited ↦ elim (Bool-cases (leb rate_limit_max_attempts (length bucket))) [
      | inl full ↦ rw (limited, ← same_count, full) (refl, Tracks-refused)
      | inr room ↦ rw (limited, ← same_count, room) (refl, Tracks-admitted)
    ]
    | inr free ↦ rw free (refl, others_agree)
  ]

decisions_agree :
    (trust : Bool) (reqs : List (Request × ℕ)) (last : ℕ) (store : Buckets) (hist : History)
    → Tracks last store hist
    → IsClock last reqs
    → decisions (basic_rate_limit trust) reqs store ≡ decisions (sliding_window trust) reqs hist
unfolding decisions
decisions_agree trust [] last store hist h c = refl
decisions_agree trust ((req, now) ∷ reqs) last store hist h c =
    let (same, kept) = limit_step trust req last now store hist h c.0 in
    rw same (
      ap (λ bs. (sliding_window trust req now hist).0 ∷ bs)
        (decisions_agree trust reqs now _ _ kept c.1))

-- On requests at times that never go back, starting from no buckets: `basic_rate_limit` admits exactly
-- the requests that the rule admits, a POST of a limited route if and only if fewer than 20 requests
-- of its route and client were admitted in the 300 seconds before it, and every other request.
pub basic_rate_limit_window :
    (trust : Bool) (reqs : List (Request × ℕ))
    → IsClock 0 reqs
    → decisions (basic_rate_limit trust) reqs (λ key. []) ≡ decisions (sliding_window trust) reqs []
basic_rate_limit_window trust reqs c =
    decisions_agree trust reqs 0 (λ key. []) [] (λ key. (omega arith, λ now p. refl)) c
