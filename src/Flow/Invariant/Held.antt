-- ===== src/Flow/Invariant/Held.antt =====
-- The parts of an execution that leave the tables of a run alone.
use flow_backend.Prelude.{
  ℕ, ◌≡◌, refl, ◌∙◌, subst, Bool, true, false, Option, none, some, List, [], ◌∷◌, some_inj,
  >>=-eq-some, ◌>>=◌, if◌then◌else◌, str, nat_eq, pair_eq,
}
use flow_backend.Value.{contains_key}
use flow_backend.Flow.State.{
  FlowGraph, Channel, Instructions, Waiting, ExecuteError, Response, State,
}
use flow_backend.Flow.Outputs.{send, flow_error}
use flow_backend.Flow.Bundle.{Responder}
use flow_backend.Flow.Result.{
  Action, put_action, output_transaction, take_instructions, collect_flow_output, output_nodes,
}
use flow_backend.Flow.Execute.{answer, answer_all, refuse_all}

-- The tables of the run are the same.
pub record Held (s t : State) : Type 0 where
  pub ran : t.ran ≡ s.ran
  pub running : t.running ≡ s.running
  pub infos : t.running_info ≡ s.running_info
  pub outputs : t.result.node_outputs ≡ s.result.node_outputs

pub Held-refl : (s : State) → Held s s
Held-refl s = record { ran = refl; running = refl; infos = refl; outputs = refl }

pub Held-trans : (s t u : State) → Held s t → Held t u → Held s u
Held-trans s t u a b = record {
  ran = b.ran ∙ a.ran;
  running = b.running ∙ a.running;
  infos = b.infos ∙ a.infos;
  outputs = b.outputs ∙ a.outputs;
}

Held-send : (s : State) (c : Option Channel) (r : Response) → Held s (send s c r)
Held-send s none r = Held-refl s
Held-send s (some c) r = record { ran = refl; running = refl; infos = refl; outputs = refl }

pub Held-answer_all :
    (failed : Option ℕ) (res : Response) (s : State) (rs : List Responder)
    → Held s (answer_all failed res s rs)
unfolding answer_all
Held-answer_all failed res s [] = Held-refl s
Held-answer_all failed res s (r ∷ rs) =
    let t = send s r.sender (answer failed res r) in
    Held-trans s t _ (Held-send s r.sender (answer failed res r)) (Held-answer_all failed res t rs)

pub Held-refuse_all :
    (error : ExecuteError) (s : State) (ws : List Waiting) → Held s (refuse_all error s ws)
unfolding refuse_all
Held-refuse_all error s [] = Held-refl s
Held-refuse_all error s (w ∷ ws) =
    let t = send s w.resp (Response.error error) in
    Held-trans s t _ (Held-send s w.resp (Response.error error)) (Held-refuse_all error t ws)

Held-put_action : (a : Action) (s : State) → Held s (put_action a s)
unfolding put_action flow_error
Held-put_action (Action.built text) s = record {
  ran = refl;
  running = refl;
  infos = refl;
  outputs = refl;
}
Held-put_action (Action.failed error) s = record {
  ran = refl;
  running = refl;
  infos = refl;
  outputs = refl;
}

Held-either : (b : Bool) (s x y : State) → Held s x → Held s y → Held s (if b then x else y)
Held-either true s x y hx hy = hx
Held-either false s x y hx hy = hy

Held-take_instructions :
    (build : Instructions → Action) (o : Option Instructions) (s : State)
    → Held s (take_instructions build o s)
unfolding take_instructions output_transaction
Held-take_instructions build none s = Held-refl s
Held-take_instructions build (some ins) s =
    let t : State = record s { result = record s.result { instructions = none } } in
    Held-trans s t _ (record { ran = refl; running = refl; infos = refl; outputs = refl })
      (Held-either (contains_key s.result.output (str "transaction")) t t _ (Held-refl t)
        (Held-put_action (build ins) t))

-- Whatever is returned, its state has the same tables.
abbrev pub Leaves : {A : Type 0} → (A → State) → State → Option A → Type 0
Leaves {A} of s o = (a : A) → o ≡ some a → Held s (of a)

pub Leaves-some :
    {A : Type 0} (of : A → State) (s : State) (a : A) → Held s (of a) → Leaves of s (some a)
Leaves-some of s a h b e = subst (λ x. Held s (of x)) (some_inj e) h

pub Leaves-bind :
    {A B : Type 0} (of : A → State) (s : State) (o : Option B) (g : B → Option A)
    → ((b : B) → o ≡ some b → Leaves of s (g b))
    → Leaves of s (o >>= g)
Leaves-bind of s o g h a e = let (b, p, q) = >>=-eq-some o g e in h b p a q

pub Leaves-if :
    {A : Type 0} (of : A → State) (s : State) (b : Bool) (x y : Option A)
    → Leaves of s x
    → Leaves of s y
    → Leaves of s (if b then x else y)
Leaves-if of s true x y hx hy = hx
Leaves-if of s false x y hx hy = hy

pub Leaves-collect_flow_output :
    (build : Instructions → Action) (f : FlowGraph) (s : State)
    → Leaves (λ t. t) s (collect_flow_output build f s)
unfolding collect_flow_output
Leaves-collect_flow_output build f s =
    Leaves-bind (λ t. t) s (output_nodes s.result.node_outputs f.nodes s.result.output) _
      (λ q e.
        let t : State = record s { result = record s.result { output = q } } in
        Leaves-some (λ t. t) s _
          (Held-trans s t _ (record { ran = refl; running = refl; infos = refl; outputs = refl })
            (Held-take_instructions build s.result.instructions t)))
