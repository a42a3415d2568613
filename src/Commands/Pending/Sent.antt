-- ===== src/Commands/Pending/Sent.antt =====
-- What fetching commands does: rows that were PENDING are SENT, in the answer and in the tables.
use mathlib.Core.Path.{subst}
use python_vs_go_pos_benchma.Prelude.{
  ℕ, zero, suc, ◌≤◌, length, take, ◌≡◌, refl, Bool, false, some, is_some, find, find_holds,
  All-find, Option-cases, sym, ◌⊎◌, inl, inr, arith, Bool-cases, true, List, [], ◌∷◌, map, ◌==◌,
  All, All-select, All-sort_by, All-take, All-alone, IsKey, Pointwise, Pointwise-map, select,
  sort_by,
}
use python_vs_go_pos_benchma.Schema.{Db}
use python_vs_go_pos_benchma.Schema.Ops.{Command, CommandStatus}
use python_vs_go_pos_benchma.Errors.{Result, ok}
use python_vs_go_pos_benchma.Session.{serve, begin}
use python_vs_go_pos_benchma.Commands.Moves.{Steps, Steps-refl, is_terminal}
use python_vs_go_pos_benchma.Commands.Pending.Loop.{
  marked, sent_commands, sent_executions, send_rows_lem, sends_it, sent_by, sent_commands_lem,
}
use python_vs_go_pos_benchma.Commands.Pending.{
  awaits, is_pending, CommandView, command_view, waiting_rows, comes_before, pending_commands,
}

-- A request for pending commands as one update of the tables, and its answer. It never fails.
pub pending_commands_lem :
    (device_id limit now : ℕ) (db : Db)
    → let rows = waiting_rows device_id limit db in
      serve (pending_commands device_id limit now) db ≡ (
        ok (map command_view (map (marked now) rows)),
        record db {
          commands = sent_commands now rows db.commands;
          executions = sent_executions rows db.executions;
        },
      )
unfolding pending_commands
pending_commands_lem device_id limit now db =
    rw (send_rows_lem now (waiting_rows device_id limit db) (begin db))

-- A row of the query has the id of this command.
abbrev pub is_among : List Command → Command → Bool
is_among rows c = is_some (find (λ r. r.id == c.id) rows)

-- What fetching these rows does to a command: one that is PENDING, of the device and among the rows
-- is sent, every other is left alone.
abbrev pub Sends : ℕ → List Command → ℕ → Command → Command → Type 0
Sends device_id rows now c c' =
    ((c' ≡ c) × (c.status ≡ CommandStatus.pending → is_among rows c ≡ false))
    ⊎ ((c.device_id ≡ device_id)
        × (c.status ≡ CommandStatus.pending)
        × (is_among rows c ≡ true)
        × (c' ≡ record c { status = CommandStatus.sent; sent_at = some now }))

-- A row of the query: it waits, for this device, and is the only command with its id.
abbrev IsAlone : ℕ → List Command → Command → Type 0
IsAlone device_id cs row =
    All (λ c. (c.id == row.id) ≡ true → c ≡ row) cs × (awaits device_id row ≡ true)

waiting_rows-IsAlone :
    (device_id limit : ℕ) (db : Db)
    → IsKey (λ (c : Command). c.id) db.commands
    → All (IsAlone device_id db.commands) (waiting_rows device_id limit db)
unfolding waiting_rows
waiting_rows-IsAlone device_id limit db unique =
    All-take (IsAlone device_id db.commands) limit
      (sort_by comes_before (select (awaits device_id) db.commands))
      (All-sort_by (IsAlone device_id db.commands) comes_before
        (select (awaits device_id) db.commands)
        (All-select (λ x. All (λ y. (y.id == x.id) ≡ true → y ≡ x) db.commands) (awaits device_id)
          db.commands (All-alone (λ c. c.id) db.commands unique)))

-- What the rows know of one command.
abbrev Knows : ℕ → List Command → Command → Type 0
Knows device_id rows c =
    All (λ r. ((c.id == r.id) ≡ true → c ≡ r) × (awaits device_id r ≡ true)) rows

-- … from what each row knows of all commands.
known_tail :
    (device_id : ℕ) (c : Command) (cs rows : List Command)
    → All (IsAlone device_id (c ∷ cs)) rows
    → Knows device_id rows c × All (IsAlone device_id cs) rows
known_tail device_id c cs [] a = (tt, tt)
known_tail device_id c cs (r ∷ rows) a =
    let (here, there) = known_tail device_id c cs rows a.1 in
    (((a.0.0.0, a.0.1), here), ((a.0.0.1, a.0.1), there))

found_also :
    (p q : Command → Bool) (rows : List Command) (r : Command)
    → find q rows ≡ some r
    → p r ≡ true
    → is_some (find p rows) ≡ true
found_also p q [] r h e = cc
found_also p q (x ∷ xs) r h e = elim (Bool-cases (p x)) [
  | inl hit ↦ rw hit refl
  | inr miss ↦ elim (Bool-cases (q x)) [
    | inl is_r ↦ let same : some x ≡ some r = rw is_r at h in cc
    | inr other ↦ rw miss (found_also p q xs r (rw other at h) e)
  ]
]

pending_is : (s : CommandStatus) → is_pending s ≡ true → s ≡ CommandStatus.pending
pending_is s h = ground arith

sent_by-Sends :
    (device_id now : ℕ) (rows : List Command) (c : Command)
    → Knows device_id rows c
    → Sends device_id rows now c (sent_by now rows c)
sent_by-Sends device_id now rows c k = elim (Option-cases (find (sends_it c) rows)) [
  | inl idle ↦ rw idle (
      inl (
        refl,
        λ waits. elim (Option-cases (find (λ r. r.id == c.id) rows)) [
          | inl absent ↦ rw absent refl
          | inr (r, found) ↦
              let hit = find_holds (λ r. r.id == c.id) rows r found in
              let is_r = (All-find _ (λ r. r.id == c.id) rows r k found).0 (ground (arith, hit)) in
              let r_waits : r.status ≡ CommandStatus.pending = rw is_r at waits in
              let sends : sends_it c r ≡ true = rw (r_waits, hit) refl in
              let also = found_also (sends_it c) (λ r. r.id == c.id) rows r found sends in
              let never : is_some (find (sends_it c) rows) ≡ false = rw idle refl in cc
        ],
      ))
  | inr (r, found) ↦
      let both = find_holds (sends_it c) rows r found in
      let hit : (r.id == c.id) ≡ true = ground (arith, both) in
      let waits : is_pending r.status ≡ true = ground (arith, both) in
      let known = All-find _ (sends_it c) rows r k found in
      let is_r : c ≡ r = known.0 (ground (arith, hit)) in
      rw found (
        inr (
          rw is_r (ground (arith, known.1)),
          rw is_r (pending_is r.status waits),
          found_also (λ r. r.id == c.id) (sends_it c) rows r found hit,
          refl,
        ))
]

sent_commands-Sends :
    (device_id now : ℕ) (rows cs : List Command)
    → All (IsAlone device_id cs) rows
    → Pointwise (Sends device_id rows now) cs (map (sent_by now rows) cs)
sent_commands-Sends device_id now rows [] a = tt
sent_commands-Sends device_id now rows (c ∷ cs) a =
    let (here, there) = known_tail device_id c cs rows a in
    (sent_by-Sends device_id now rows c here, sent_commands-Sends device_id now rows cs there)

goes_on : (s : CommandStatus) → s ≡ CommandStatus.pending → is_terminal s ≡ true → ⊥
goes_on s e h = ground arith

Sends-Steps :
    (device_id : ℕ) (rows : List Command) (now : ℕ) (c c' : Command)
    → Sends device_id rows now c c'
    → Steps c c'
Sends-Steps device_id rows now c c' (inl (e, _)) = rw e (Steps-refl c)
Sends-Steps device_id rows now c c' (inr (_, w, _, e)) = rw e (record {
  order = record { id = refl; device_id = refl; execution_id = refl; created_at = refl };
  move = rw w tt;
  ended = λ h. absurd (goes_on c.status w h);
})

length-take_le : {A : Type 0} (n : ℕ) (xs : List A) → length (take n xs) ≤ n
length-take_le zero xs = omega arith
length-take_le (suc n) [] = omega arith
length-take_le (suc n) (x ∷ xs) = omega (arith, length-take_le n xs)

-- Fetching commands marks a command as SENT at this instant, and changes nothing else of it, if it is
-- PENDING, belongs to the device and is among the rows that the query returns, of which there are no
-- more than the limit; every other command it leaves as it is, if ids are unique.
pub pending_commands-Sends :
    (device_id limit now : ℕ) (db : Db)
    → IsKey (λ (c : Command). c.id) db.commands
    → Pointwise
        (Sends device_id (waiting_rows device_id limit db) now)
        db.commands
        (serve (pending_commands device_id limit now) db).1.commands
      × (length (waiting_rows device_id limit db) ≤ limit)
unfolding waiting_rows
pending_commands-Sends device_id limit now db unique =
    let rows = waiting_rows device_id limit db in
    (
      subst
          (λ (r : Result (List CommandView) × Db).
            Pointwise (Sends device_id rows now) db.commands r.1.commands)
          (sym (pending_commands_lem device_id limit now db))
          (subst (Pointwise (Sends device_id rows now) db.commands)
            (sym (sent_commands_lem now rows db.commands))
            (sent_commands-Sends device_id now rows db.commands
              (waiting_rows-IsAlone device_id limit db unique))),
      length-take_le limit (sort_by comes_before (select (awaits device_id) db.commands)),
    )

-- … which is a step in the life of a command.
pub pending_commands-Steps :
    (device_id limit now : ℕ) (db : Db)
    → IsKey (λ (c : Command). c.id) db.commands
    → Pointwise Steps db.commands (serve (pending_commands device_id limit now) db).1.commands
pending_commands-Steps device_id limit now db unique =
    let rows = waiting_rows device_id limit db in
    Pointwise-map (Sends device_id rows now) Steps db.commands
      (serve (pending_commands device_id limit now) db).1.commands (Sends-Steps device_id rows now)
      ((pending_commands-Sends device_id limit now db unique).0)
