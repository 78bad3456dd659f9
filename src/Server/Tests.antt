-- ===== src/Server/Tests.antt =====
-- Workers that ran for a while, and the theorems at them.
use flow_backend.Prelude.{
  ◌+◌, ◌≡◌, ◌≤◌, refl, ◌++◌, Option, none, some, [], ◌∷◌, str, nat_eq, str_eq,
}
use flow_backend.Server.Token
use flow_backend.Server.Token.{
  Jwt, Fetched, LocalDb, Task, TokenWorker, Reply, ready, Response, access_token, handle,
  process_result, TokenState, available, claim, five_minutes,
}
use flow_backend.Server.Token.Steps
use flow_backend.Server.Token.Answers.{
  IsSound, answered, upto, worker-IsSound, process_result_total, ready_lem,
}

-- A database of one user.
abbrev one_user : LocalDb (Option Jwt)
one_user = record {
  get_jwt = λ s user_id. some s;
  set_jwt = λ s user_id jwt. some jwt;
  remove_jwt = λ s user_id. none;
}

abbrev old_jwt : Jwt
old_jwt = record { access_token = str "abc"; refresh_token = str "r"; expires_at = 400000 }

abbrev no_jwt : Option Jwt
no_jwt = none

abbrev idle_worker : TokenWorker (Option Jwt)
idle_worker = Token.started one_user (Token.new 7 none)

abbrev asked : TokenWorker (Option Jwt)
asked = (handle one_user 100000 idle_worker 7).0

abbrev asked_twice : TokenWorker (Option Jwt)
asked_twice = (handle one_user 100001 asked 7).0

asked_reach : Steps.Reach one_user 7 none asked_twice
asked_reach =
    Steps.Reach.next (Steps.Reach.next Steps.Reach.here (Steps.Step.request 100000 idle_worker 7))
      (Steps.Step.request 100001 asked 7)

worker-IsSound_example : IsSound asked_twice
worker-IsSound_example = worker-IsSound one_user 7 none asked_twice asked_reach

asked_tasks : asked_twice.tasks ≡ [] ++ claim ∷ []
unfolding Token.started Token.restore Token.new handle Token.handle_state Token.spawn
asked_tasks = refl

process_result_total_example :
    (v : TokenWorker (Option Jwt)) × (process_result one_user
        (Steps.ended asked_twice [])
        (Fetched.ok old_jwt)
      ≡ some v)
    × (answered v.responses ≡ upto v.next_channel)
    × (v.tasks ≡ [])
process_result_total_example =
    process_result_total one_user 7 none asked_twice [] claim [] (Fetched.ok old_jwt) asked_reach
      asked_tasks

abbrev with_jwt : TokenWorker (Option Jwt)
with_jwt = Token.started one_user (Token.new 7 (some old_jwt))

ready_abc : (handle one_user 100000 with_jwt 7).1 ≡ ready (access_token (str "abc"))
unfolding Token.started Token.restore Token.new handle Token.handle_state Token.spawn
ready_abc = refl

ready_lem_example :
    (jwt : Jwt) × (with_jwt.state ≡ available jwt)
    × (jwt.access_token ≡ str "abc")
    × (100000 + five_minutes ≤ jwt.expires_at)
ready_lem_example = ready_lem one_user 100000 with_jwt 7 (str "abc") ready_abc
