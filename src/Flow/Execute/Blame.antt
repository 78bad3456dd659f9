-- ===== src/Flow/Execute/Blame.antt =====
-- Which node of a bundle gets the error of a failed instruction.
use flow_backend.Prelude.{
  ℕ, ◌≤◌, ◌<◌, ◌≡◌, refl, ◌∙◌, sym, ap, Option, some, Option-cases, inl, inr, List, [], ◌∷◌, ◌++◌,
  All, length, length-append, arith, Bool-cases, ltb, ltb→lt, ltb_false→le,
}
use flow_backend.Flow.State.{Keypair, Instructions, Waiting, ExecuteError, Response}
use flow_backend.Flow.Bundle.{combine, Responder, combine_all, overwrite, bundle}
use flow_backend.Flow.Bundle.Slice.{combine-some}
use flow_backend.Flow.Execute.{answer}

-- The ranges follow each other from `a` to `b`.
Follow : ℕ → List Responder → ℕ → Type 0
Follow a [] b = a ≡ b
Follow a (r ∷ rs) b = (r.start ≡ a) × (a ≤ r.end) × Follow r.end rs b

Follow-snoc :
    (a : ℕ) (rs : List Responder) (b : ℕ) (r : Responder)
    → Follow a rs b
    → r.start ≡ b
    → b ≤ r.end
    → Follow a (rs ++ r ∷ []) r.end
unfolding Follow
Follow-snoc a [] b r h starts le = (starts ∙ sym h, omega (arith, h, le), refl)
Follow-snoc a (q ∷ rs) b r (s, le', h) starts le = (s, le', Follow-snoc q.end rs b r h starts le)

Follow-combine_all :
    (ins : Instructions) (resp : List Responder) (tx : List Waiting)
    → Follow 0 resp (length ins.instructions)
    → Follow 0 (combine_all ins resp tx).resp (length (combine_all ins resp tx).ins.instructions)
unfolding combine_all
Follow-combine_all ins resp [] h = h
Follow-combine_all ins resp (w ∷ tx) h = elim (Option-cases (combine ins w.instructions)) [
  | inl e ↦ rw (combine_all, e) h
  | inr (combined, e) ↦
      let (payer, kept, joined) = combine-some ins w.instructions combined e in
      let longer : length ins.instructions ≤ length combined.instructions =
        omega
          (arith, ap length joined, length-append ins.instructions w.instructions.instructions) in
      rw (combine_all, e) (Follow-combine_all combined _ tx (Follow-snoc 0 resp _ _ h refl longer))
]

Follow-bundle :
    (o : Option Keypair) (w : Waiting) (tx : List Waiting)
    → Follow 0 (bundle o w tx).resp (length (bundle o w tx).ins.instructions)
unfolding bundle Follow
Follow-bundle o w tx =
    Follow-combine_all (overwrite o w.instructions) _ tx (refl, omega arith, refl)

-- The node is told that another instruction failed.
abbrev pub IsSpared : ℕ → Response → Responder → Type 0
IsSpared pos res r = answer (some pos) res r ≡ Response.error ExecuteError.tx_sim_failed

IsSpared-before : (pos : ℕ) (res : Response) (r : Responder) → r.end ≤ pos → IsSpared pos res r
IsSpared-before pos res r h = ground arith

IsSpared-after : (pos : ℕ) (res : Response) (r : Responder) → pos < r.start → IsSpared pos res r
IsSpared-after pos res r h = ground arith

blamed :
    (pos : ℕ) (res : Response) (r : Responder)
    → r.start ≤ pos
    → pos < r.end
    → answer (some pos) res r ≡ res
blamed pos res r from to = ground arith

All-IsSpared :
    (a : ℕ) (rs : List Responder) (b pos : ℕ) (res : Response)
    → Follow a rs b
    → pos < a
    → All (IsSpared pos res) rs
unfolding Follow
All-IsSpared a [] b pos res h lt = tt
All-IsSpared a (r ∷ rs) b pos res (s, le, h) lt = (
  IsSpared-after pos res r (omega (arith, s, lt)),
  All-IsSpared r.end rs b pos res h (omega (arith, le, lt)),
)

-- One responder has the position in its range and gets the result; the others do not.
pub record Blames (pos : ℕ) (res : Response) (rs : List Responder) : Type 0 where
  pub before : List Responder
  pub guilty : Responder
  pub after : List Responder
  pub split : rs ≡ before ++ guilty ∷ after
  pub from : guilty.start ≤ pos
  pub to : pos < guilty.end
  pub told : answer (some pos) res guilty ≡ res
  pub spared_first : All (IsSpared pos res) before
  pub spared_last : All (IsSpared pos res) after

Follow-Blames :
    (a : ℕ) (rs : List Responder) (b pos : ℕ) (res : Response)
    → Follow a rs b
    → a ≤ pos
    → pos < b
    → Blames pos res rs
unfolding Follow
Follow-Blames a [] b pos res h le lt = absurd (omega (arith, h, le, lt))
Follow-Blames a (r ∷ rs) b pos res (s, le', h) le lt = elim (Bool-cases (ltb pos r.end)) [
  | inl e ↦
      let inside = ltb→lt pos r.end e in
      let starts : r.start ≤ pos = omega (arith, s, le) in
      record {
        before = [];
        guilty = r;
        after = rs;
        split = refl;
        from = starts;
        to = inside;
        told = blamed pos res r starts inside;
        spared_first = tt;
        spared_last = All-IsSpared r.end rs b pos res h inside;
      }
  | inr e ↦
      let past = ltb_false→le pos r.end e in
      let rest = Follow-Blames r.end rs b pos res h past lt in
      record {
        before = r ∷ rest.before;
        guilty = rest.guilty;
        after = rest.after;
        split = ap (◌∷◌ r) rest.split;
        from = rest.from;
        to = rest.to;
        told = rest.told;
        spared_first = (IsSpared-before pos res r past, rest.spared_first);
        spared_last = rest.spared_last;
      }
]

-- If an instruction of a bundle fails, one node has its position in its range and is answered with
-- the result of the execution, and every other node of the bundle is answered that the simulation
-- failed.
pub bundle-Blames :
    (o : Option Keypair) (w : Waiting) (tx : List Waiting) (pos : ℕ) (res : Response)
    → pos < length (bundle o w tx).ins.instructions
    → Blames pos res (bundle o w tx).resp
bundle-Blames o w tx pos res h =
    Follow-Blames 0 (bundle o w tx).resp _ pos res (Follow-bundle o w tx) (omega arith) h
