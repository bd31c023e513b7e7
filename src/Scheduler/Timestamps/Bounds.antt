-- ===== src/Scheduler/Timestamps/Bounds.antt =====
-- When GetRespTS of scheduler/server/tso/tso.go returns a timestamp, and which one.
use tiny_kv_practice.Prelude.{
  ℕ, zero, suc, ◌+◌, ◌≤◌, ◌<◌, ◌≡◌, ◌≢◌, ◌↔◌, refl, sym, ap, subst, ◌∙◌, ◌^◌, Bool, true, false,
  not, Option, none, some, leb, ◌==◌, if◌then◌else◌, arith, if-cases, inl, inr,
}
use tiny_kv_practice.Scheduler.Timestamps.{
  Oracle, Timestamp, TsoError, TsoResult, ok, err, max_logical, try_ts, or_again, get_rounds,
  get_resp_ts,
}
use tiny_kv_practice.Scheduler.Timestamps.Saves.{ms}

-- How GetRespTS comes to a timestamp within so many rounds: it waits while the time is zero or the logical
-- part is full, until an oracle with a lease and room has counted.
pub data Given (wait : Oracle → Oracle) (count : ℕ) : ℕ → Oracle → Oracle → Timestamp → Type 0 where
  now :
      {rounds : ℕ} {o : Oracle}
      → o.is_set ≡ true
      → o.physical ≢ 0
      → o.has_lease ≡ true
      → o.logical + count < 2 ^ 18
      → Given wait count
          (suc rounds)
          o
          (record o { logical = o.logical + count })
          (record { physical = ms o.physical; logical = o.logical + count })
  unsynced :
      {rounds : ℕ} {o o' : Oracle} {ts : Timestamp}
      → o.is_set ≡ true
      → o.physical ≡ 0
      → Given wait count rounds (wait o) o' ts
      → Given wait count (suc rounds) o o' ts
  full :
      {rounds : ℕ} {o o' : Oracle} {ts : Timestamp}
      → o.is_set ≡ true
      → o.physical ≢ 0
      → 2 ^ 18 ≤ o.logical + count
      → Given wait count rounds (wait (record o { logical = o.logical + count })) o' ts
      → Given wait count (suc rounds) o o' ts

-- What one round does.
pub data Round (expired : Bool) (count : ℕ) (o : Oracle) : Oracle × Option TsoResult → Type 0 where
  returns :
      o.is_set ≡ true
      → o.physical ≢ 0
      → o.has_lease ≡ true
      → expired ≡ false
      → o.logical + count < 2 ^ 18
      → Round expired count o (
        record o { logical = o.logical + count },
        some (ok (record { physical = ms o.physical; logical = o.logical + count })),
      )
  waits : o.is_set ≡ true → o.physical ≡ 0 → Round expired count o (o, none)
  waits_full :
      o.is_set ≡ true
      → o.physical ≢ 0
      → 2 ^ 18 ≤ o.logical + count
      → Round expired count o (record o { logical = o.logical + count }, none)
  fails : (o' : Oracle) (error : TsoError) → Round expired count o (o', some (err error))

if_lem :
    {A : Type 0} (P : A → Type 0) (c : Bool) (x y : A)
    → (c ≡ true → P x)
    → (c ≡ false → P y)
    → P (if c then x else y)
if_lem P true x y holds fails' = holds refl
if_lem P false x y holds fails' = fails' refl

module _ (o : Oracle) (expired : Bool) (count : ℕ) where
  abbrev Counts : Option TsoResult → Type 0
  Counts r = Round expired count o (record o { logical = o.logical + count }, r)

  try_ts-Round : Round expired count o (try_ts o expired count)
  unfolding try_ts
  try_ts-Round =
      if_lem (Round expired count o) (not o.is_set) _ _ (λ unset. fails _ _)
        (λ set.
          if_lem (Round expired count o) (o.physical == 0) _ _
            (λ stopped. waits (ground (arith, set)) (ground (arith, stopped)))
            (λ runs.
              if_lem Counts (leb max_logical (o.logical + count)) _ _
                (λ over.
                  waits_full (ground (arith, set)) (ground (arith, runs)) (ground (arith, over)))
                (λ room.
                  if_lem Counts (not o.has_lease) _ _ (λ no_lease. fails _ _)
                    (λ leased.
                      if_lem Counts expired _ _ (λ over. fails _ _)
                        (λ valid.
                          returns (ground (arith, set)) (ground (arith, runs))
                            (ground (arith, leased)) valid (ground (arith, room)))))))

  try_ts-returns :
      o.is_set ≡ true
      → o.physical ≢ 0
      → o.has_lease ≡ true
      → o.logical + count < 2 ^ 18
      → try_ts o false count ≡ (
        record o { logical = o.logical + count },
        some (ok (record { physical = ms o.physical; logical = o.logical + count })),
      )
  unfolding try_ts
  try_ts-returns set runs leased room = ground arith

  try_ts-waits : o.is_set ≡ true → o.physical ≡ 0 → try_ts o expired count ≡ (o, none)
  unfolding try_ts
  try_ts-waits set stopped = ground arith

  try_ts-waits_full :
      o.is_set ≡ true
      → o.physical ≢ 0
      → 2 ^ 18 ≤ o.logical + count
      → try_ts o expired count ≡ (record o { logical = o.logical + count }, none)
  unfolding try_ts
  try_ts-waits_full set runs over = ground arith

module _ (wait : Oracle → Oracle) (expired : Bool) (count rounds : ℕ) (o : Oracle) where
  get_rounds-eq :
      {p : Oracle × Option TsoResult}
      → try_ts o expired count ≡ p
      → get_rounds (suc rounds) wait expired count o
        ≡ or_again p (get_rounds rounds wait expired count (wait p.0))
  unfolding get_rounds
  get_rounds-eq h = ap (λ q. or_again q (get_rounds rounds wait expired count (wait q.0))) h

get_rounds-ok :
    (wait : Oracle → Oracle) (rounds count : ℕ) (o o' : Oracle) {ts : Timestamp}
    → Given wait count rounds o o' ts
    → get_rounds rounds wait false count o ≡ (o', ok ts)
get_rounds-ok wait zero count o o' given = elim given [ ]
get_rounds-ok wait (suc rounds) count o o' (now set runs leased room) =
    get_rounds-eq wait false count rounds o (try_ts-returns o false count set runs leased room)
get_rounds-ok wait (suc rounds) count o o' (unsynced set stopped given) =
    get_rounds-eq wait false count rounds o (try_ts-waits o false count set stopped)
    ∙ get_rounds-ok wait rounds count _ o' given
get_rounds-ok wait (suc rounds) count o o' (full set runs over given) =
    get_rounds-eq wait false count rounds o (try_ts-waits_full o false count set runs over)
    ∙ get_rounds-ok wait rounds count _ o' given

get_resp_ts-ok :
    (wait : Oracle → Oracle) (count : ℕ) (o o' : Oracle) {ts : Timestamp}
    → 0 < count
    → Given wait count 100 o o' ts
    → get_resp_ts wait false count o ≡ (o', ok ts)
unfolding get_resp_ts
get_resp_ts-ok wait count o o' positive given =
    let asked : (count == 0) ≡ false = ground arith in
    rw asked (get_rounds-ok wait 100 count o o' given)

positive_of_asked : (count : ℕ) → (count == 0) ≡ false → 0 < count
positive_of_asked count asked = ground (arith, asked)

module _ (wait : Oracle → Oracle) (expired : Bool) (count : ℕ) (o' : Oracle) where
  abbrev Ends : ℕ → Oracle → Timestamp → Type 0
  Ends rounds o ts = (expired ≡ false) × Given wait count rounds o o' ts

  Round-Ends :
      {rounds : ℕ} {o : Oracle} {p : Oracle × Option TsoResult} {ts : Timestamp}
      → Round expired count o p
      → ((q : Oracle) → get_rounds rounds wait expired count q ≡ (o', ok ts) → Ends rounds q ts)
      → or_again p (get_rounds rounds wait expired count (wait p.0)) ≡ (o', ok ts)
      → Ends (suc rounds) o ts
  Round-Ends {rounds} {o} {ts = ts} (returns set runs leased valid room) rest h =
      let oracle : record o { logical = o.logical + count } ≡ o' = ap (λ q. q.0) h in
      let stamp : record { physical = ms o.physical; logical = o.logical + count } ≡ ts = cc in
      (
        valid,
        subst (λ q. Given wait count (suc rounds) o q ts) oracle
            (subst
              (λ t. Given wait count (suc rounds) o (record o { logical = o.logical + count }) t)
              stamp (now set runs leased room)),
      )
  Round-Ends {o = o} (waits set stopped) rest h =
      let (valid, given) = rest (wait o) h in (valid, unsynced set stopped given)
  Round-Ends (waits_full set runs over) rest h =
      let (valid, given) = rest _ h in (valid, full set runs over given)
  Round-Ends (fails o1 error) rest h = cc

  get_rounds-Ends :
      (rounds : ℕ) (o : Oracle) {ts : Timestamp}
      → get_rounds rounds wait expired count o ≡ (o', ok ts)
      → Ends rounds o ts
  unfolding get_rounds
  get_rounds-Ends zero o h = cc
  get_rounds-Ends (suc rounds) o h =
      Round-Ends (try_ts-Round o expired count) (λ q rest. get_rounds-Ends rounds q rest) h

  -- GetRespTS returns a timestamp exactly if the count is positive, the lease has not expired, and within 100
  -- rounds there is one at which the oracle has a time, a lease, and room in the logical part below 2 ^ 18,
  -- while at all earlier ones the time is zero or the logical part is full. The timestamp is the time of that
  -- round in milliseconds, with the logical part moved on by the count. `wait`, what other calls do to the
  -- oracle while this one sleeps, is arbitrary.
  pub get_resp_ts-ok_iff :
      (o : Oracle) (ts : Timestamp)
      → (get_resp_ts wait expired count o ≡ (o', ok ts))
        ↔ ((0 < count) × (expired ≡ false) × Given wait count 100 o o' ts)
  unfolding get_resp_ts
  get_resp_ts-ok_iff o ts = (
    λ h. elim (if-cases (count == 0) h) [
      | inl (_, none_asked) ↦ cc
      | inr (asked, rest) ↦
          let (valid, given) = get_rounds-Ends 100 o rest in
          (positive_of_asked count asked, valid, given)
    ],
    λ (positive, valid, given).
        subst (λ b. get_resp_ts wait b count o ≡ (o', ok ts)) (sym valid)
          (get_resp_ts-ok wait count o o' positive given),
  )
