-- ===== src/Worker/Sweep/Verdict.antt =====
-- What a sweep decides of each alarm, whatever the order in which it visits the devices.
use python_vs_go_pos_benchma.Prelude.{
  ℕ, ◌≡◌, ◌≤◌, refl, ap, inl, inr, arith, Bool, true, false, not, Bool-cases, ◌&&◌, ◌||◌, List, [],
  ◌∷◌, ◌==◌, ==_refl, Option, some, is_some, find, count, update, insert, All, All-map, only_row,
  find_holds, if◌then◌else◌,
}
use python_vs_go_pos_benchma.Schema.Fleet.{Alarm, AlarmKey, key_eq}
use python_vs_go_pos_benchma.Worker.Sweep.{
  Progress, is_open_alarm, open_new, new_alarm, closed, is_open_with, resolve_alarm, unseen_for,
}
use python_vs_go_pos_benchma.Worker.Sweep.Alarms.{Consistent, same_key, one_with_id}

-- Whether a device has an open alarm under a key: all that a sweep reads of the alarms.
abbrev pub is_open : List Alarm → ℕ → AlarmKey → Bool
is_open alarms d k = is_some (find (is_open_alarm d k) alarms)

-- What a sweep makes of a device's offline alarm: it opens after 300 s without maintenance, is closed
-- within 120 s, and stays as it was in between.
abbrev pub verdict : ℕ → Option ℕ → Bool → Bool → Bool
verdict now last_seen maintained was =
    if unseen_for 300 now last_seen && not maintained
    then true
    else if not (unseen_for 120 now last_seen)
    then false
    else was

module _ {A : Type 0} (p : A → Bool) where
  found-insert :
      (y : A) (xs : List A) → is_some (find p (insert y xs)) ≡ (is_some (find p xs) || p y)
  found-insert y [] = elim (Bool-cases (p y)) [ inl e ↦ rw e | inr e ↦ rw e ]
  found-insert y (x ∷ xs) = elim (Bool-cases (p x)) [
    | inl e ↦ rw e
    | inr e ↦ rw e (found-insert y xs)
  ]

  module _ (q : A → Bool) (f : A → A) (off : (y : A) → p (f y) ≡ false) where
    -- An update of rows that a query does not return.
    found-update :
        (xs : List A)
        → All (λ y. q y ≡ true → p y ≡ false) xs
        → is_some (find p (update q f xs)) ≡ is_some (find p xs)
    found-update [] h = refl
    found-update (x ∷ xs) h = elim (Bool-cases (q x)) [
      | inl e ↦ rw (e, off x, h.0 e) (found-update xs h.1)
      | inr e ↦ elim (Bool-cases (p x)) [
        | inl hit ↦ rw (e, hit)
        | inr miss ↦ rw (e, miss) (found-update xs h.1)
      ]
    ]

    -- An update of all that it returns.
    lost-update :
        (xs : List A)
        → All (λ y. p y ≡ true → q y ≡ true) xs
        → is_some (find p (update q f xs)) ≡ false
    lost-update [] h = refl
    lost-update (x ∷ xs) h = elim (Bool-cases (q x)) [
      | inl e ↦ rw (e, off x) (lost-update xs h.1)
      | inr e ↦ elim (Bool-cases (p x)) [
        | inl hit ↦ let bad = h.0 hit in cc
        | inr miss ↦ rw (e, miss) (lost-update xs h.1)
      ]
    ]

key_eq_refl : (k : AlarmKey) → key_eq k k ≡ true
key_eq_refl (AlarmKey.offline a) = ==_refl a
key_eq_refl (AlarmKey.execution_failures a) = ==_refl a

-- This device, and this key.
abbrev pub same : ℕ → AlarmKey → ℕ → AlarmKey → Bool
same i j d k = i == d && key_eq j k

pub is_open-open_new :
    (i : ℕ) (j : AlarmKey) (now : ℕ) (s : Progress) (d : ℕ) (k : AlarmKey)
    → is_open (open_new i j now s).alarms d k ≡ (is_open s.alarms d k || same i j d k)
is_open-open_new i j now s d k =
    rw (found-insert (is_open_alarm d k) (new_alarm s.next_id i j now) s.alarms) (ground arith)

pub is_open-resolve_alarm :
    (before i : ℕ) (j : AlarmKey) (now : ℕ) (a : Alarm) (s : Progress) (d : ℕ) (k : AlarmKey)
    → find (is_open_alarm i j) s.alarms ≡ some a
    → Consistent before s
    → is_open (resolve_alarm a.id now s).alarms d k ≡ (is_open s.alarms d k && not (same i j d k))
is_open-resolve_alarm before i j now a s d k found h =
    let holds = find_holds (is_open_alarm i j) s.alarms a found in
    let its_device : a.device_id ≡ i = ground (arith, holds) in
    let its_key : a.alarm_key ≡ j = same_key a.alarm_key j (ground (arith, holds)) in
    let opened : a.is_open ≡ true = ground (arith, holds) in
    let this : is_open_with a.id a ≡ true = rw (opened, ==_refl) in
    elim (Bool-cases (same i j d k)) [
      | inl hit ↦
          let is_d : i ≡ d = ground (arith, hit) in
          let is_k : j ≡ k = same_key j k (ground (arith, hit)) in
          let only : All (λ y. is_open_alarm d k y ≡ true → y ≡ a) s.alarms =
            rw (is_d, is_k) at
              (only_row (is_open_alarm i j) (is_open_alarm i j) s.alarms a (h.once i j) found
                holds) in
          rw
            (
              hit,
              lost-update (is_open_alarm d k) (is_open_with a.id) (closed now) (λ y. ground arith)
                  s.alarms (All-map s.alarms (λ y o p. rw (o p) this) only),
            )
            (ground arith)
      | inr miss ↦
          let one : count (is_open_with a.id) s.alarms ≤ 1 =
            omega (arith, h.ids a.id, one_with_id a.id s.alarms) in
          let only = only_row (is_open_alarm i j) (is_open_with a.id) s.alarms a one found this in
          let other : is_open_alarm d k a ≡ false =
            rw (its_device, its_key) (ground (arith, miss)) in
          rw
            (
              miss,
              found-update (is_open_alarm d k) (is_open_with a.id) (closed now) (λ y. ground arith)
                  s.alarms (All-map s.alarms (λ y o p. rw (o p) other) only),
            )
            (ground arith)
    ]

pub same-is_open :
    (i : ℕ) (j : AlarmKey) (alarms : List Alarm) (o : Option Alarm) (d : ℕ) (k : AlarmKey)
    → find (is_open_alarm i j) alarms ≡ o
    → same i j d k ≡ true
    → is_open alarms d k ≡ is_some o
same-is_open i j alarms o d k e hit =
    let is_d : i ≡ d = ground (arith, hit) in
    let is_k : j ≡ k = same_key j k (ground (arith, hit)) in ap is_some (rw (is_d, is_k) at e)
