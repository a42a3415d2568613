-- ===== src/Heartbeat/Seen.antt =====
-- A device that reports is seen.
use python_vs_go_pos_benchma.Prelude.{
  ℕ, ◌+◌, ◌≡◌, ◌≢◌, ◌≤◌, refl, ◌∙◌, inl, inr, arith, true, false, Bool-cases, Option-cases, List,
  [], ◌∷◌, ◌==◌, ==_refl, Option, some, String, find, find-insert_miss, find-insert_hit, update,
}
use python_vs_go_pos_benchma.Schema.{Db, seconds}
use python_vs_go_pos_benchma.Schema.Fleet.{DeviceState}
use python_vs_go_pos_benchma.Session.{serve}
use python_vs_go_pos_benchma.Heartbeat.{states_with, seen, record_heartbeat}
use python_vs_go_pos_benchma.Payments.Admission.{is_stale}

-- The row of a device.
abbrev pub state_of : ℕ → List DeviceState → Option DeviceState
state_of device_id states = find (λ s. s.device_id == device_id) states

-- The states after a heartbeat.
abbrev states_after : ℕ → Option String → String → ℕ → List DeviceState → List DeviceState
states_after device_id app_version payload now states =
    update (λ s. s.device_id == device_id) (seen now app_version payload)
      (states_with device_id now states)

find-update_at :
    (f : DeviceState → DeviceState) (i : ℕ) (states : List DeviceState) (s : DeviceState)
    → ((x : DeviceState) → (f x).device_id ≡ x.device_id)
    → state_of i states ≡ some s
    → state_of i (update (λ x. x.device_id == i) f states) ≡ some (f s)
find-update_at f i [] s same h = cc
find-update_at f i (x ∷ xs) s same h = elim (Bool-cases (x.device_id == i)) [
  | inl hit ↦
      let is_s : some x ≡ some s = rw hit at h in
      let is_x : x ≡ s = cc in
      let hit' : ((f x).device_id == i) ≡ true = rw (same x) hit in rw (hit, hit', is_x)
  | inr miss ↦ rw (miss, miss) (find-update_at f i xs s same (rw miss at h))
]

find-update_other :
    (f : DeviceState → DeviceState) (i j : ℕ) (states : List DeviceState)
    → ((x : DeviceState) → (f x).device_id ≡ x.device_id)
    → j ≢ i
    → state_of j (update (λ x. x.device_id == i) f states) ≡ state_of j states
find-update_other f i j [] same other = refl
find-update_other f i j (x ∷ xs) same other = elim (Bool-cases (x.device_id == i)) [
  | inl hit ↦
      let miss : (x.device_id == j) ≡ false = ground (arith, other) in
      rw (hit, same, miss) (find-update_other f i j xs same other)
  | inr apart ↦ rw (apart, find-update_other f i j xs same other)
]

-- Every device has a row before the UPDATE.
row_exists :
    (i now : ℕ) (states : List DeviceState)
    → (s : DeviceState) × (state_of i (states_with i now states) ≡ some s)
row_exists i now states = elim (Option-cases (state_of i states)) [
  | inl missing ↦ rw missing (find-insert_hit (λ s. s.device_id == i) _ states (==_refl i))
  | inr (s, found) ↦ (s, rw (found, found))
]

others_same :
    (i j now : ℕ) (states : List DeviceState)
    → j ≢ i
    → state_of j (states_with i now states) ≡ state_of j states
others_same i j now states other = elim (Option-cases (state_of i states)) [
  | inl missing ↦
      let miss : (i == j) ≡ false = ground (arith, other) in
      rw missing (find-insert_miss (λ s. s.device_id == j) _ states miss)
  | inr (s, found) ↦ rw found
]

-- After a heartbeat, for 120 seconds, the device has a state that a payment does not take for
-- stale; and the states of the other devices are as before.
pub record_heartbeat_seen :
    (device_id : ℕ) (sequence : Option ℕ) (app_version : Option String) (payload : String) (now : ℕ)
    (db : Db)
    → let after = (serve (record_heartbeat device_id sequence app_version payload now) db).1 in
      ((s : DeviceState) × (state_of device_id after.device_states ≡ some s)
        × ((later : ℕ) → later ≤ now + seconds 120 → is_stale s.last_seen_at later ≡ false))
      × ((other : ℕ)
          → other ≢ device_id
          → state_of other after.device_states ≡ state_of other db.device_states)
unfolding record_heartbeat
record_heartbeat_seen i sequence app_version payload now db =
    let (s, found) = row_exists i now db.device_states in
    (
      (
        seen now app_version payload s,
        find-update_at (seen now app_version payload) i (states_with i now db.device_states) s
            (λ x. refl) found,
        λ later soon. ground (arith, soon),
      ),
      λ other apart.
          find-update_other (seen now app_version payload) i other
            (states_with i now db.device_states) (λ x. refl) apart
          ∙ others_same i other now db.device_states apart,
    )
