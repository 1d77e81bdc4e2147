-- ===== src/Notification.antt =====
-- internal/features/notification/service.go, `Create`: the row and the job that sends it, in one
-- transaction. The text of the body is left out.
use go_api_project_template.Prelude.{ℕ, suc, String, [], ◌∷◌, ◌++◌}
use go_api_project_template.Database.{Outcome, done, sql, run_tx, ◌>>=◌}
use go_api_project_template.Schema.{Db, Env, Action}

unfoldable pub insert_notification : ℕ → String → Db → Outcome Db ℕ
insert_notification user title d = done d.next_id (record d {
  notifications =
      d.notifications ++ (record { id = d.next_id; user_id = user; title = title }) ∷ [];
  next_id = suc d.next_id;
})

module _ (env : Env) where
  unfoldable pub create_body : ℕ → String → Action (Unit {0})
  create_body user title = do
    id ← sql env.fault (insert_notification user title)
    sql env.fault
        (λ (d : Db). done tt (record d { send_jobs = env.insert_send_job id d.send_jobs }))

  unfoldable pub create : ℕ → String → Action (Unit {0})
  create user title = run_tx env.fault (create_body user title)
