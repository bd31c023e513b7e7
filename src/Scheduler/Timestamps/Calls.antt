-- ===== src/Scheduler/Timestamps/Calls.antt =====
-- Each call of an oracle keeps its invariant (scheduler/server/tso/tso.go).
use tiny_kv_practice.Prelude.{
  ℕ, ◌+◌, ◌*◌, ◌≤◌, ◌<◌, ◌≡◌, ◌≢◌, ◌⊎◌, inl, inr, refl, sym, subst, Bool, true, not, Option, some,
  ◌==◌, arith, Bool-cases, Option-cases, if-cases,
}
use tiny_kv_practice.Scheduler.TypeUtil.{Bytes, millisecond, unix_offset, parse_ts, sub_lt, sub_le}
use tiny_kv_practice.Scheduler.Ids.{Answer, answered, failed, Etcd}
use tiny_kv_practice.Scheduler.Timestamps.{
  Oracle, Timestamp, ok, timestamp_path, saved_time, Done, first_time, sync_from, sync_with,
  sync_timestamp, reset_user_timestamp, next_time, move_to, update_timestamp, try_ts, max_logical,
  update_timestamp_guard,
}
use tiny_kv_practice.Scheduler.Timestamps.Saves.{code, ms, top, Running, Inv, stored, save-Inv}

-- What a round that returns a timestamp does.
pub try_ts_inv :
    (o : Oracle) (expired : Bool) (count : ℕ) {o' : Oracle} {ts : Timestamp}
    → try_ts o expired count ≡ (o', some (ok ts))
    → (o' ≡ record o { logical = o.logical + count })
      × (ts.physical ≡ ms o.physical)
      × (ts.logical ≡ o.logical + count)
      × (o.logical + count < max_logical)
      × (o.physical ≢ 0)
unfolding try_ts
try_ts_inv o expired count h =
    (ground arith, ground arith, ground arith, ground arith, ground arith)

-- A round moves nothing but the logical part of an oracle that has a time.
pub try_ts-oracle :
    (o : Oracle) (expired : Bool) (count : ℕ)
    → ((try_ts o expired count).0 ≡ o)
      ⊎ ((try_ts o expired count).0 ≡ record o { logical = o.logical + count })
unfolding try_ts
try_ts-oracle o expired count = elim (Bool-cases o.is_set) [
  | inl set ↦ elim (Bool-cases (o.physical == 0)) [
    | inl stopped ↦ inl (rw (set, stopped) refl)
    | inr runs ↦ inr (rw (set, runs) refl)
  ]
  | inr unset ↦ inl (rw unset refl)
]

pub counted-Inv :
    (value : Option Bytes) (o : Oracle) (count last : ℕ)
    → Inv value o last
    → Inv value (record o { logical = o.logical + count }) last
counted-Inv value o count last inv = record {
  saved = inv.saved;
  saved_eq = inv.saved_eq;
  last_lt = inv.last_lt;
  running = elim inv.running [
    | inl stopped ↦ inl stopped
    | inr r ↦ inr (record {
      after = r.after;
      below_saved = r.below_saved;
      last_saved_le = r.last_saved_le;
      interval_le = r.interval_le;
      issued = omega (arith, r.issued);
      within = r.within;
    })
  ];
}

-- A timestamp that a round returns has a logical part below 2 ^ 18, and it and the `count - 1` before it
-- are above all that were given out.
pub try_ts-ok :
    (value : Option Bytes) (o : Oracle) (expired : Bool) (count last : ℕ) {o' : Oracle}
    {ts : Timestamp}
    → Inv value o last
    → try_ts o expired count ≡ (o', some (ok ts))
    → (last + count ≤ code ts.physical ts.logical) × Inv value o' (code ts.physical ts.logical)
try_ts-ok value o expired count last {o'} {ts} inv h =
    let (o_eq, physical, logical, small, set) = try_ts_inv o expired count h in
    elim inv.running [
      | inl stopped ↦ absurd (set stopped)
      | inr r ↦ (
        omega (arith, r.issued, physical, logical),
        subst (λ q. Inv value q (code ts.physical ts.logical)) (sym o_eq)
            (record {
              saved = inv.saved;
              saved_eq = inv.saved_eq;
              last_lt = omega (arith, r.below_saved, r.after, physical, logical, small);
              running = inr (record {
                after = r.after;
                below_saved = r.below_saved;
                last_saved_le = r.last_saved_le;
                interval_le = r.interval_le;
                issued = omega (arith, physical, logical);
                within = omega (arith, physical, logical, small);
              });
            }),
      )
    ]

first_time_lem :
    (now last : ℕ)
    → ((first_time now last ≡ last + update_timestamp_guard)
        × (now < last + update_timestamp_guard))
      ⊎ ((first_time now last ≡ now) × (last + update_timestamp_guard ≤ now))
first_time_lem now last = elim (Bool-cases (sub_lt now last update_timestamp_guard)) [
  | inl early ↦ inl (rw early refl, ground (arith, early))
  | inr late ↦ inr (rw late refl, ground (arith, late))
]

physical_le :
    {value : Option Bytes} {o : Oracle} {last : ℕ} (inv : Inv value o last) → o.physical ≤ inv.saved
physical_le inv = elim inv.running [ inl stopped ↦ omega arith | inr r ↦ r.below_saved ]

module _ (e : Etcd) (root member : Bytes) (s : e.State) (o : Oracle) (last : ℕ)
    (inv : Inv (stored e root member s) o last) where
  abbrev Keeps : Done e root member → Type 0
  Keeps d = Inv (stored e root member d.0) d.1 last

  pub sync_timestamp-Inv :
      (now : ℕ)
      → unix_offset + millisecond ≤ now
      → now + o.save_interval < top
      → ((t : ℕ)
          → saved_time (stored e root member s) ≡ some t
          → t + millisecond + o.save_interval < top)
      → Keeps (sync_timestamp e root member s o now)
  unfolding sync_timestamp
  sync_timestamp-Inv now after room saved_room = by_answer (e.get s (timestamp_path root)) refl
    where
      started : Keeps (sync_from e root member s o now (some inv.saved))
      started =
          let before = physical_le inv in
          let small = saved_room inv.saved inv.saved_eq in
          elim (first_time_lem now inv.saved) [
            | inl (next_eq, early) ↦
                save-Inv e root member s o last (first_time now inv.saved) true inv
                  (omega (arith, next_eq)) (omega (arith, next_eq, before))
                  (omega (arith, next_eq, small)) (omega (arith, next_eq, inv.last_lt))
            | inr (next_eq, late) ↦
                save-Inv e root member s o last (first_time now inv.saved) true inv
                  (omega (arith, next_eq)) (omega (arith, next_eq, before)) (omega (arith, next_eq))
                  (omega (arith, next_eq, inv.last_lt))
          ]

      by_answer :
          (a : Answer (Option Bytes))
          → e.get s (timestamp_path root) ≡ a
          → Keeps (sync_with e root member s o now a)
      by_answer failed h = inv
      by_answer (answered v) h =
          subst (λ w. Keeps (sync_from e root member s o now (saved_time w)))
            (sym (e.get_lem s (timestamp_path root) v h))
            (subst (λ t. Keeps (sync_from e root member s o now t)) (sym inv.saved_eq) started)

  -- To move on to a later millisecond, with a save where the saved time is near.
  moved-Inv :
      (next : ℕ)
      → Running inv.saved last o
      → o.physical ≤ next
      → ms o.physical + 1 ≤ ms next
      → next + o.save_interval < top
      → Keeps (move_to e root member s o (some next))
  moved-Inv next r le later room =
      elim (Bool-cases (sub_le o.last_saved next update_timestamp_guard)) [
        | inl near ↦ rw near (
            save-Inv e root member s o last next o.has_lease inv (omega (arith, r.after)) le room
              (omega (arith, r.within, later)))
        | inr far ↦ rw far (record {
          saved = inv.saved;
          saved_eq = inv.saved_eq;
          last_lt = inv.last_lt;
          running = inr (record {
            after = omega (arith, r.after);
            below_saved = ground (arith, far, r.last_saved_le);
            last_saved_le = r.last_saved_le;
            interval_le = omega (arith, r.interval_le);
            issued = omega (arith, r.within, later);
            within = omega (arith, r.within, later);
          });
        })
      ]

  next_time_lem :
      (now : ℕ) {next : ℕ}
      → next_time o now ≡ some next
      → ((next ≡ now) × (o.physical + millisecond < now)) ⊎ (next ≡ o.physical + millisecond)
  unfolding next_time
  next_time_lem now h = ground arith

  pub update_timestamp-Inv :
      (now : ℕ)
      → o.physical ≢ 0
      → now + o.save_interval < top
      → o.physical + millisecond + o.save_interval < top
      → Keeps (update_timestamp e root member s o now)
  unfolding update_timestamp
  update_timestamp-Inv now set room room' = elim inv.running [
    | inl stopped ↦ absurd (set stopped)
    | inr r ↦ elim (if-cases (not o.is_set) {z = update_timestamp e root member s o now} refl) [
      | inl (_, e0) ↦ subst Keeps e0 inv
      | inr (_, e0) ↦ subst Keeps e0 (elim (Option-cases (next_time o now)) [
        | inl stays ↦ subst (λ t. Keeps (move_to e root member s o t)) (sym stays) inv
        | inr (next, moves) ↦
            subst (λ t. Keeps (move_to e root member s o t)) (sym moves)
              (elim (next_time_lem now moves) [
                | inl (is_now, late) ↦
                    moved-Inv next r (omega (arith, is_now, late))
                      (omega (arith, is_now, late, r.after)) (omega (arith, is_now))
                | inr forward ↦
                    moved-Inv next r (omega (arith, forward)) (omega (arith, forward, r.after))
                      (omega (arith, forward))
              ])
      ])
    ]
  ]

  parse_ts-after : (tso : ℕ) → unix_offset ≤ (parse_ts tso).0
  unfolding parse_ts
  parse_ts-after tso = omega arith

  pub reset_user_timestamp-Inv :
      (expired : Bool) (tso : ℕ)
      → o.physical ≢ 0
      → (parse_ts tso).0 + millisecond + o.save_interval < top
      → Keeps (reset_user_timestamp e root member s o expired tso)
  unfolding reset_user_timestamp
  reset_user_timestamp-Inv expired tso set room = elim inv.running [
    | inl stopped ↦ absurd (set stopped)
    | inr r ↦
        let next = (parse_ts tso).0 + millisecond in
        let after = parse_ts-after tso in
        let result = reset_user_timestamp e root member s o expired tso in
        elim (if-cases (not o.has_lease) {z = result} refl) [
          | inl (_, e0) ↦ subst Keeps e0 inv
          | inr (_, e0) ↦ elim (if-cases expired e0) [
            | inl (_, en) ↦ subst Keeps en inv
            | inr (_, en) ↦ elim (if-cases (not o.is_set) en) [
              | inl (_, e1) ↦ subst Keeps e1 inv
              | inr (_, e1) ↦
                  elim (if-cases (sub_le next o.physical (3 * update_timestamp_guard)) e1) [
                    | inl (_, e2) ↦ subst Keeps e2 inv
                    | inr (enough, e2) ↦
                        elim (if-cases (not (sub_lt next o.physical o.max_reset_gap)) e2) [
                          | inl (_, e3) ↦ subst Keeps e3 inv
                          | inr (_, e3) ↦
                              let later : o.physical + 3 * update_timestamp_guard < next =
                                ground (arith, enough) in
                              subst Keeps e3 (
                                save-Inv e root member s o last next o.has_lease inv
                                  (omega (arith, after)) (omega (arith, later)) room
                                  (omega (arith, r.within, r.after, later)))
                        ]
                  ]
            ]
          ]
        ]
  ]
