-- ===== src/Server/Token.antt =====
-- `TokenWorker` of crates/flow-server/src/db_worker/token_worker.rs: it keeps the JWT of a user and
-- fetches a new one for all who wait. Times are milliseconds. A task that `ctx.spawn` starts is an
-- entry of `tasks` until it ends; a oneshot channel is a number, given out in order.
pub mod Steps
pub mod Answers
use flow_backend.Prelude.{
  ℕ, suc, ◌+◌, ◌*◌, Bool, true, false, not, Option, none, some, List, [], ◌∷◌, ◌++◌, Str, nat_beq,
  ltb, if◌then◌else◌,
}

abbrev pub UserId : Type 0
UserId = ℕ

abbrev pub Channel : Type 0
Channel = ℕ

pub record Jwt : Type 0 where
  pub access_token : Str
  pub refresh_token : Str
  pub expires_at : ℕ

pub record TokenResponse : Type 0 where
  pub access_token : Str
  pub expires_in : ℕ
  pub refresh_token : Str

-- From<TokenResponse> for Jwt
unfoldable pub from_response : ℕ → TokenResponse → Jwt
from_response now resp = record {
  access_token = resp.access_token;
  refresh_token = resp.refresh_token;
  expires_at = now + resp.expires_in * 1000;
}

-- get_jwt::Error
pub data Error : Type 0 where
  not_allowed user_not_found wrong_recipient : Error
  worker mail_box other : Str → Error
  supabase : (error error_description : Str) → Error

pub data Fetched : Type 0 where
  ok : Jwt → Fetched
  err : Error → Fetched

-- Result<get_jwt::Response, get_jwt::Error>
pub data Response : Type 0 where
  access_token : Str → Response
  error : Error → Response

pub data TokenState : Type 0 where
  empty : TokenState
  available : Jwt → TokenState
  fetching : List Channel → TokenState

-- The database of the process; an error of a write is only logged.
pub record LocalDb (Store : Type 0) : Type 0 where
  -- `none` is an error
  pub get_jwt : Store → UserId → Option (Option Jwt)
  pub set_jwt : Store → UserId → Jwt → Store
  pub remove_jwt : Store → UserId → Store

-- ClaimToken::claim, or `refresh` with a refresh token.
pub data Task : Type 0 where
  claim : Task
  refresh : Str → Task

pub record TokenWorker (Store : Type 0) : Type 0 where
  pub user_id : UserId
  pub local_db : Store
  pub state : TokenState
  pub tasks : List Task
  pub next_channel : Channel
  pub responses : List (Channel × Response)

-- A result at once, or the receiver of a channel.
pub data Reply : Type 0 where
  ready : Response → Reply
  receive : Channel → Reply

-- Duration::try_minutes(5)
abbrev pub five_minutes : ℕ
five_minutes = 5 * 60 * 1000

-- `expires_at - now < five_minutes`, for a difference of either sign.
abbrev pub expires_soon : ℕ → Jwt → Bool
expires_soon now jwt = ltb jwt.expires_at (now + five_minutes)

unfoldable pub new : {Store : Type 0} → UserId → Store → TokenWorker Store
new user_id local_db = record {
  user_id = user_id;
  local_db = local_db;
  state = empty;
  tasks = [];
  next_channel = 0;
  responses = [];
}

abbrev pub stored : Option Jwt → TokenState
stored none = empty
stored (some jwt) = available jwt

abbrev pub send_all :
    List Channel → Response → List (Channel × Response) → List (Channel × Response)
send_all [] r sent = sent
send_all (tx ∷ vec) r sent = send_all vec r (sent ++ (tx, r) ∷ [])

-- A task is spawned, and the one who asks waits for it.
unfoldable pub spawn : {Store : Type 0} → TokenWorker Store → Task → TokenWorker Store × Reply
spawn w task = (
  record w {
    state = fetching (w.next_channel ∷ []);
    tasks = w.tasks ++ task ∷ [];
    next_channel = suc w.next_channel;
  },
  receive w.next_channel,
)

module _ {Store : Type 0} (db : LocalDb Store) where
  unfoldable pub restore : TokenWorker Store → Option (Option Jwt) → TokenWorker Store
  restore w none = record w { local_db = db.remove_jwt w.local_db w.user_id; state = empty }
  restore w (some jwt) = record w { state = stored jwt }

  unfoldable pub started : TokenWorker Store → TokenWorker Store
  unfolding restore
  started w = restore w (db.get_jwt w.local_db w.user_id)

  unfoldable pub settle : TokenWorker Store → List Channel → Fetched → TokenWorker Store
  settle w vec (ok jwt) = record w {
    local_db = db.set_jwt w.local_db w.user_id jwt;
    state = available jwt;
    responses = send_all vec (access_token jwt.access_token) w.responses;
  }
  settle w vec (err e) = record w {
    local_db = db.remove_jwt w.local_db w.user_id;
    state = empty;
    responses = send_all vec (error e) w.responses;
  }

  -- `none` is `unreachable!`.
  unfoldable pub process_result : TokenWorker Store → Fetched → Option (TokenWorker Store)
  unfolding settle
  process_result w res = elim w.state [
    | empty ↦ none
    | available jwt ↦ none
    | fetching vec ↦ some (settle w vec res)
  ]

  unfoldable pub handle_state : ℕ → TokenWorker Store → TokenState → TokenWorker Store × Reply
  unfolding spawn
  handle_state now w empty = spawn w claim
  handle_state now w (available jwt) =
      if expires_soon now jwt
      then spawn w (refresh jwt.refresh_token)
      else (w, ready (access_token jwt.access_token))
  handle_state now w (fetching vec) = (
    record w { state = fetching (vec ++ w.next_channel ∷ []); next_channel = suc w.next_channel },
    receive w.next_channel,
  )

  -- Handler<get_jwt::Request>
  unfoldable pub handle : ℕ → TokenWorker Store → UserId → TokenWorker Store × Reply
  unfolding handle_state
  handle now w user_id =
      if not (nat_beq w.user_id user_id)
      then (w, ready (error wrong_recipient))
      else handle_state now w w.state
