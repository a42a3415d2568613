-- ===== src/Commands/Life.antt =====
-- The life of a command over any number of requests.
use python_vs_go_pos_benchma.Prelude.{◌≡◌, refl, ◌∙◌, true, List, [], ◌∷◌, Pointwise}
use python_vs_go_pos_benchma.Schema.Ops.{Command}
use python_vs_go_pos_benchma.Commands.Moves.{SameOrder, Steps, is_terminal}

-- A row that legal changes have made of another.
pub data Life (c : Command) : Command → Type 0 where
  begun : Life c c
  later : {d e : Command} → Life c d → Steps d e → Life c e

pub Life-order : (c d : Command) → Life c d → SameOrder c d
Life-order c _ begun = record {
  id = refl;
  device_id = refl;
  execution_id = refl;
  created_at = refl;
}
Life-order c e (later {d} life step) =
    let before = Life-order c d life in
    record {
      id = step.order.id ∙ before.id;
      device_id = step.order.device_id ∙ before.device_id;
      execution_id = step.order.execution_id ∙ before.execution_id;
      created_at = step.order.created_at ∙ before.created_at;
    }

pub Life-ended : (c d : Command) → Life c d → is_terminal c.status ≡ true → d ≡ c
Life-ended c _ begun h = refl
Life-ended c e (later {d} life step) h =
    let same = Life-ended c d life h in step.ended (rw same h) ∙ same

-- One more request.
pub lives_on :
    (start now next : List Command)
    → Pointwise Life start now
    → Pointwise Steps now next
    → Pointwise Life start next
lives_on [] [] [] a b = tt
lives_on (c ∷ cs) (d ∷ ds) (e ∷ es) a b = (later a.0 b.0, lives_on cs ds es a.1 b.1)
lives_on [] (d ∷ ds) next a b = elim a [ ]
lives_on (c ∷ cs) [] next a b = elim a [ ]
lives_on [] [] (e ∷ es) a b = elim b [ ]
lives_on (c ∷ cs) (d ∷ ds) [] a b = elim b [ ]
