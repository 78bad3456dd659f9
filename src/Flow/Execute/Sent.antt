-- ===== src/Flow/Execute/Sent.antt =====
-- What was sent between two states of an execution, and to whom.
use flow_backend.Prelude.{
  ℕ, ◌≡◌, refl, ◌∙◌, sym, ap, ap₂, Option, none, some, List, [], ◌∷◌, ◌++◌, append_assoc,
  append-nil, map, nat_eq,
}
use flow_backend.Flow.State.{Channel, Waiting, ExecuteError, Response, State}
use flow_backend.Flow.Outputs.{send}
use flow_backend.Flow.Bundle.{Responder}
use flow_backend.Flow.Bundle.Slice.{AllStand}
use flow_backend.Flow.Execute.{answer, answer_all, refuse_all}

-- The channel of a sender whose receiver is still there.
abbrev pub channel_of : Option Channel → List Channel
channel_of none = []
channel_of (some c) = c ∷ []

abbrev pub channels : List Waiting → List Channel
channels [] = []
channels (w ∷ ws) = channel_of w.resp ++ channels ws

abbrev pub senders : List Responder → List Channel
senders [] = []
senders (r ∷ rs) = channel_of r.sender ++ senders rs

-- From one state to another one response went into each of these channels, in this order, and none
-- into another one.
pub record Answers (s t : State) (cs : List Channel) : Type 0 where
  pub sent : List (Channel × Response)
  pub grown : t.responses ≡ s.responses ++ sent
  pub ends : map (λ p. p.0) sent ≡ cs

map-append :
    (xs ys : List (Channel × Response))
    → map (λ (p : Channel × Response). p.0) (xs ++ ys) ≡ map (λ p. p.0) xs ++ map (λ p. p.0) ys
map-append [] ys = refl
map-append (x ∷ xs) ys = ap (◌∷◌ x.0) (map-append xs ys)

pub Answers-refl : (s t : State) → t.responses ≡ s.responses → Answers s t []
Answers-refl s t e = record { sent = []; grown = e ∙ sym (append-nil s.responses); ends = refl }

pub Answers-trans :
    (s t u : State) (cs ds : List Channel)
    → Answers s t cs
    → Answers t u ds
    → Answers s u (cs ++ ds)
Answers-trans s t u cs ds a b = record {
  sent = a.sent ++ b.sent;
  grown = b.grown ∙ ap (λ l. l ++ b.sent) a.grown ∙ append_assoc s.responses a.sent b.sent;
  ends = map-append a.sent b.sent ∙ ap₂ ◌++◌ a.ends b.ends;
}

pub Answers-send :
    (s : State) (c : Option Channel) (r : Response) → Answers s (send s c r) (channel_of c)
Answers-send s none r = Answers-refl s s refl
Answers-send s (some c) r = record { sent = (c, r) ∷ []; grown = refl; ends = refl }

pub Answers-answer_all :
    (failed : Option ℕ) (res : Response) (s : State) (rs : List Responder)
    → Answers s (answer_all failed res s rs) (senders rs)
unfolding answer_all
Answers-answer_all failed res s [] = Answers-refl s s refl
Answers-answer_all failed res s (r ∷ rs) =
    let t = send s r.sender (answer failed res r) in
    Answers-trans s t _ _ _ (Answers-send s r.sender (answer failed res r))
      (Answers-answer_all failed res t rs)

pub Answers-refuse_all :
    (error : ExecuteError) (s : State) (ws : List Waiting)
    → Answers s (refuse_all error s ws) (channels ws)
unfolding refuse_all
Answers-refuse_all error s [] = Answers-refl s s refl
Answers-refuse_all error s (w ∷ ws) =
    let t = send s w.resp (Response.error error) in
    Answers-trans s t _ _ _ (Answers-send s w.resp (Response.error error))
      (Answers-refuse_all error t ws)

pub senders-AllStand :
    (all : List ℕ) (ws : List Waiting) (rs : List Responder)
    → AllStand all ws rs
    → senders rs ≡ channels ws
senders-AllStand all [] [] h = refl
senders-AllStand all [] (r ∷ rs) h = elim h [ ]
senders-AllStand all (w ∷ ws) [] h = elim h [ ]
senders-AllStand all (w ∷ ws) (r ∷ rs) h =
    ap₂ ◌++◌ (ap channel_of h.0.answers) (senders-AllStand all ws rs h.1)

pub channels-append : (xs ys : List Waiting) → channels (xs ++ ys) ≡ channels xs ++ channels ys
channels-append [] ys = refl
channels-append (x ∷ xs) ys =
    ap (◌++◌ (channel_of x.resp)) (channels-append xs ys)
    ∙ sym (append_assoc (channel_of x.resp) (channels xs) (channels ys))
