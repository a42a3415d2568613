-- ===== src/Seed/Database/Agreed.antt =====
-- A freshly seeded database: no command has ended, and no payment is one of a correctness run.
use Prim.Native.String.{◌++◌}
use text.Mathlib.TextLemmas.{cons-append}
use python_vs_go_pos_benchma.Prelude.{◌≡◌, refl, true, false, String, [], All, codes, starts_with}
use python_vs_go_pos_benchma.Commands.Agreed.{Agreed, Agree}
use python_vs_go_pos_benchma.Payments.Create.Complete.{AllComplete, IsComplete}
use python_vs_go_pos_benchma.Seed.Decimal.{decimal, lpad}
use python_vs_go_pos_benchma.Seed.Series.Counting.{All-rows, IsKey-rows, All-always}
use python_vs_go_pos_benchma.Seed.Profile.{Profile, command_count}
use python_vs_go_pos_benchma.Seed.Rows.{Digests, executions}
use python_vs_go_pos_benchma.Seed.Database.{seed_db, IsProfile}
use python_vs_go_pos_benchma.Seed.Database.Joined.{
  payment_at, payments_lem, command_at, commands_lem,
}

-- 'idem-…' is not LIKE 'corr-%'
not_corr : (s : String) → starts_with (codes "corr-") (codes ("idem-" ++ s)) ≡ false
not_corr s = rw (cons-append) refl

module _ (digest : Digests) (cfg : Profile) (ok_ : IsProfile cfg) where
  pub seed_db-Agreed : Agreed (seed_db digest cfg)
  unfolding seed_db
  seed_db-Agreed =
      let at = command_at digest cfg ok_ in
      rw (commands_lem digest cfg ok_) (record {
        ids = IsKey-rows at (λ c. c.id) 1 (command_count cfg) (λ g. refl);
        one_command = IsKey-rows at (λ c. c.execution_id) 1 (command_count cfg) (λ g. refl);
        agree =
            All-rows at (λ c. All (Agree c) (executions digest cfg)) 1 (command_count cfg)
              (λ g low high. All-always (Agree (at g)) (executions digest cfg) (λ e ended. cc));
      })

  pub seed_db-AllComplete :
      AllComplete (λ key. starts_with (codes "corr-") (codes key)) (seed_db digest cfg)
  unfolding seed_db
  seed_db-AllComplete = rw (payments_lem digest cfg ok_) (
      All-rows (payment_at digest cfg ok_)
        (λ p. starts_with (codes "corr-") (codes p.idempotency_key) ≡ true → IsComplete [] [] p) 1
        cfg.payments (λ g low high is_corr. let other = not_corr (lpad 12 (decimal g)) in cc))
