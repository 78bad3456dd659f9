-- ===== src/Server/Token/Steps.antt =====
-- The life of a token worker: requests arrive, and the tasks that it spawned end.
use flow_backend.Prelude.{ℕ, ◌≡◌, some, List, ◌∷◌, ◌++◌}
use flow_backend.Server.Token.{
  UserId, Fetched, LocalDb, Task, TokenWorker, new, started, process_result, handle,
}

-- A task that ends is no longer there when its result is processed.
abbrev pub ended : {Store : Type 0} → TokenWorker Store → List Task → TokenWorker Store
ended w tasks = record w { tasks = tasks }

module _ {Store : Type 0} (db : LocalDb Store) where
  pub data Step : TokenWorker Store → TokenWorker Store → Type 0 where
    request :
        (now : ℕ) (w : TokenWorker Store) (user_id : UserId) → Step w (handle db now w user_id).0
    fetched :
        (w : TokenWorker Store) (before : List Task) (task : Task) (after : List Task)
        (res : Fetched) (v : TokenWorker Store)
        → w.tasks ≡ before ++ task ∷ after
        → process_result db (ended w (before ++ after)) res ≡ some v
        → Step w v

  pub data Reach (user_id : UserId) (store : Store) : TokenWorker Store → Type 0 where
    here : Reach user_id store (started db (new user_id store))
    next : {w v : TokenWorker Store} → Reach user_id store w → Step w v → Reach user_id store v
