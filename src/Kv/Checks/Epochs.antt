-- ===== src/Kv/Checks/Epochs.antt =====
-- Which commands pass the check of the epoch (kv/raftstore/util/util.go).
use tiny_kv_practice.Prelude.{
  ℕ, ◌≡◌, ◌≢◌, ◌==◌, ◌+◌, ◌<◌, refl, Bool, true, false, not, ◌&&◌, ◌||◌, Option, none, some, [],
  ◌∷◌, ◌⊎◌, ◌↔◌, inl, inr, arith, if◌then◌else◌, Bool-cases, ℕ_discrete, dec_lt, u64_mod,
  add64_exact,
}
use tiny_kv_practice.Kv.Checks.{
  AdminCmdType, Region, RegionEpoch, Header, Request, CheckError, stale_command, epoch_not_match,
  check_ver, check_conf_ver, compare_epochs, check_epoch_in, check_region_epoch, check_term,
}

-- The epoch of a request agrees with the region's, in the parts that the kind of the command depends on.
abbrev pub IsCurrent : Option AdminCmdType → RegionEpoch → RegionEpoch → Type 0
IsCurrent admin from current =
    ((check_ver admin ≡ false) ⊎ (from.version ≡ current.version))
    × ((check_conf_ver admin ≡ false) ⊎ (from.conf_ver ≡ current.conf_ver))

neither : (a b : Bool) → (not a && not b) ≡ true → (a ≡ false) × (b ≡ false)
neither false false h = (refl, refl)
neither false true h = cc
neither true b h = cc

current_iff :
    (v c : Bool) (a b x y : ℕ) (e : CheckError)
    → ((if (c && not (a == b)) || (v && not (x == y)) then some e else none) ≡ none)
      ↔ (((v ≡ false) ⊎ (x ≡ y)) × ((c ≡ false) ⊎ (a ≡ b)))
current_iff false false a b x y e = (λ h. (inl refl, inl refl), λ h. refl)
current_iff false true a b x y e = elim (ℕ_discrete a b) [
  | yes p ↦ ground arith
  | no p ↦ ground arith
]
current_iff true false a b x y e = elim (ℕ_discrete x y) [
  | yes p ↦ ground arith
  | no p ↦ ground arith
]
current_iff true true a b x y e = elim (ℕ_discrete a b) [
  | yes p ↦ elim (ℕ_discrete x y) [ yes q ↦ ground arith | no q ↦ ground arith ]
  | no p ↦ ground arith
]

check_epoch_in_lem :
    (admin : Option AdminCmdType) (region : Region) (include_region : Bool) {header : Option Header}
    {h : Header} {e : RegionEpoch}
    → header ≡ some h
    → h.region_epoch ≡ some e
    → check_epoch_in header admin region include_region
      ≡ compare_epochs admin e region include_region
unfolding check_epoch_in
check_epoch_in_lem admin region include_region p q = rw p (rw (check_epoch_in, q) refl)

-- A request with an epoch passes the check exactly if the version is the region's, where the command is
-- no administrative one or splits or transfers, and the configuration version is the region's, where the
-- command changes peers, splits or transfers.
pub check_region_epoch_iff :
    (req : Request) (region : Region) (include_region : Bool) {h : Header} {e : RegionEpoch}
    → req.header ≡ some h
    → h.region_epoch ≡ some e
    → (check_region_epoch req region include_region ≡ none)
      ↔ IsCurrent req.admin_request e region.region_epoch
unfolding check_region_epoch compare_epochs
check_region_epoch_iff req region include_region {h} {e} p q =
    let admin = req.admin_request in
    let current = region.region_epoch in
    let by_epochs =
      current_iff (check_ver admin) (check_conf_ver admin) e.conf_ver current.conf_ver e.version
        current.version (epoch_not_match (if include_region then region ∷ [] else [])) in
    let compares = check_epoch_in_lem admin region include_region p q in
    elim (Bool-cases (not (check_ver admin) && not (check_conf_ver admin))) [
      | inl idle ↦ rw idle (
          let (v, c) = neither (check_ver admin) (check_conf_ver admin) idle in
          (λ h. (inl v, inl c), λ h. refl))
      | inr checked ↦ rw (checked, compares) by_epochs
    ]

-- A command is stale exactly if the term that it names is set and more than one behind, while terms do not
-- overflow.
pub check_term_iff :
    (req : Request) (term : ℕ) {h : Header}
    → req.header ≡ some h
    → h.term + 1 < u64_mod
    → (check_term req term ≡ some (some stale_command)) ↔ ((h.term ≢ 0) × (h.term + 1 < term))
unfolding check_term
check_term_iff req term {h} p room =
    let exact = add64_exact h.term 1 room in
    rw (p, exact)
      (elim (ℕ_discrete h.term 0) [
        | yes unset ↦ ground arith
        | no set ↦ elim (dec_lt (h.term + 1) term) [
          | yes behind ↦ ground arith
          | no recent ↦ ground arith
        ]
      ])
