-- ===== src/Scheduler/Tests/MapEtcd.antt =====
-- Etcd as a map in memory, which keeps the promises that the scheduler relies on.
use tiny_kv_practice.Prelude.{
  ◌≡◌, ◌⊎◌, inl, inr, refl, sym, ap, ◌∙◌, Bool, true, false, ◌&&◌, Option, none, some, List, [],
  ◌∷◌, arith, if◌then◌else◌, if-cases,
}
use tiny_kv_practice.Keys.{is_below_antisymm, compare_bytes_refl}
use tiny_kv_practice.Keys.Sorted.{same}
use tiny_kv_practice.Scheduler.TypeUtil.{Bytes}
use tiny_kv_practice.Scheduler.Ids.{
  Cmp, absent, has_value, Txn, Answer, answered, failed, Holds, Etcd,
}

abbrev pub State : Type 0
State = Bytes → Option Bytes

abbrev pub value : State → Bytes → Option Bytes
value s k = s k

abbrev pub is_value : Option Bytes → Bytes → Bool
is_value none v = false
is_value (some w) v = same w v

abbrev pub is_absent : Option Bytes → Bool
is_absent none = true
is_absent (some w) = false

unfoldable pub passes : State → List Cmp → Bool
passes s [] = true
passes s (absent k ∷ cs) = let rest = passes s cs in is_absent (s k) && rest
passes s (has_value k v ∷ cs) = let rest = passes s cs in is_value (s k) v && rest

unfoldable pub write : State → Bytes → Bytes → State
write s k v j = if same k j then some v else s j

unfoldable pub commit : State → Txn → State × Answer Bool
commit s t =
    if passes s t.conditions then (write s t.key t.value, answered true) else (s, answered false)

same_refl : (k : Bytes) → same k k ≡ true
same_refl k = ground (arith, compare_bytes_refl k)

eq_of_same : (a b : Bytes) → same a b ≡ true → a ≡ b
eq_of_same a b h = ground (arith, is_below_antisymm a b)

is_value-true : (o : Option Bytes) (v : Bytes) → is_value o v ≡ true → o ≡ some v
is_value-true none v h = cc
is_value-true (some w) v h = ap some (eq_of_same w v h)

is_absent-true : (o : Option Bytes) → is_absent o ≡ true → o ≡ none
is_absent-true none h = refl
is_absent-true (some w) h = cc

and-true : (a b : Bool) → (a && b) ≡ true → (a ≡ true) × (b ≡ true)
and-true true b h = (refl, h)
and-true false b h = cc

passes-Holds : (s : State) (cs : List Cmp) → passes s cs ≡ true → Holds value s cs
unfolding passes
passes-Holds s [] h = tt
passes-Holds s (absent k ∷ cs) h =
    let (first, rest) = and-true (is_absent (s k)) (passes s cs) h in
    (is_absent-true (s k) first, passes-Holds s cs rest)
passes-Holds s (has_value k v ∷ cs) h =
    let (first, rest) = and-true (is_value (s k) v) (passes s cs) h in
    (is_value-true (s k) v first, passes-Holds s cs rest)

pub commit-done :
    (s s' : State) (t : Txn)
    → commit s t ≡ (s', answered true)
    → Holds value s t.conditions × (value s' t.key ≡ some t.value)
unfolding commit write
commit-done s s' t h = elim (if-cases (passes s t.conditions) h) [
  | inl (holds, e) ↦ (
    passes-Holds s t.conditions holds,
    sym (ap (λ p. p.0 t.key) e) ∙ written (s t.key) (same_refl t.key),
  )
  | inr (_, e) ↦ absurd (not_done (ap (λ p. p.1) e))
]
  where
    written :
        {c : Bool} (o : Option Bytes) → c ≡ true → (if c then some t.value else o) ≡ some t.value
    written o h = rw h refl

    not_done : answered false ≡ answered true → ⊥
    not_done h = cc

pub commit-not :
    (s s' : State) (t : Txn)
    → commit s t ≡ (s', answered false)
    → (k : Bytes) → value s' k ≡ value s k
unfolding commit
commit-not s s' t h k = elim (if-cases (passes s t.conditions) h) [
  | inl (_, e) ↦ absurd (not_done (ap (λ p. p.1) e))
  | inr (_, e) ↦ sym (ap (λ p. p.0 k) e)
]
  where
    not_done : answered true ≡ answered false → ⊥
    not_done h = cc

pub commit-failed :
    (s s' : State) (t : Txn)
    → commit s t ≡ (s', failed)
    → (Holds value s t.conditions × (value s' t.key ≡ some t.value))
      ⊎ ((k : Bytes) → value s' k ≡ value s k)
unfolding commit
commit-failed s s' t h = elim (if-cases (passes s t.conditions) h) [
  | inl (_, e) ↦ absurd (not_failed (ap (λ p. p.1) e))
  | inr (_, e) ↦ absurd (not_failed (ap (λ p. p.1) e))
]
  where
    not_failed : {x : Bool} → answered x ≡ failed → ⊥
    not_failed h = cc

pub answer-injective : (v w : Option Bytes) → answered v ≡ answered w → w ≡ v
answer-injective v w h = cc

abbrev pub map_etcd : Etcd
map_etcd = record {
  State = State;
  value = value;
  get = λ s k. answered (s k);
  commit = commit;
  get_lem = λ s k v h. answer-injective (s k) v h;
  commit_done = commit-done;
  commit_not = commit-not;
  commit_failed = commit-failed;
}
