-- ===== src/TriggerFb/Dispatch.antt =====
-- What the search of the table of trigger_fb.c finds.
use mathlib.Core.Option.{some-injective}
use hdrt.Prelude.{
  ◌≡◌, ◌∙◌, inl, inr, sym, Bool, true, ◌&&◌, some, List, [], ◌∷◌, arith, Bool-cases, Option-cases,
}
use hdrt.TriggerVector.Events.{EventType}
use hdrt.TriggerVector.Fields.{State, Event}
use hdrt.TriggerVector.Codes.{event_code_injective, state_code_injective}
use hdrt.SyncIo.Hardware.{Hardware}
use hdrt.TriggerFb.World.{World}
use hdrt.TriggerFb.Rows.{Handler, Row, row}
use hdrt.TriggerFb.Table.{
  dispatch, ecc_table, row_matches, row_handler, find_handler, run_handler, execute,
}

hit_state :
    (state : State) (kind : EventType) (s : State) (k : EventType) (x : Handler)
    → row_matches state kind (row s k x) ≡ true
    → s ≡ state
unfolding row_matches
hit_state state kind s k x e = state_code_injective s state (ground (arith, e))

hit_kind :
    (state : State) (kind : EventType) (s : State) (k : EventType) (x : Handler)
    → row_matches state kind (row s k x) ≡ true
    → k ≡ kind
unfolding row_matches
hit_kind state kind s k x e = event_code_injective k kind (ground (arith, e))

both : (a b : Bool) → (a && b) ≡ true → (a ≡ true) × (b ≡ true)
both a b e = ground arith

-- Whether a check holds of every row.
unfoldable pub every : (State → EventType → Handler → Bool) → List Row → Bool
every check [] = true
every check (row s k hd ∷ rows) = check s k hd && every check rows

moved :
    (check : State → EventType → Handler → Bool) (s state : State) (k kind : EventType)
    (x hd : Handler)
    → s ≡ state
    → k ≡ kind
    → x ≡ hd
    → check s k x ≡ true
    → check state kind hd ≡ true
moved check s state k kind x hd p q r e = sym (λ i. check (p i) (q i) (r i)) ∙ e

found_every :
    (check : State → EventType → Handler → Bool) (state : State) (kind : EventType)
    (rows : List Row) (hd : Handler)
    → every check rows ≡ true
    → find_handler state kind rows ≡ some hd
    → check state kind hd ≡ true
unfolding find_handler every row_handler
found_every check state kind [] hd v e = ground arith
found_every check state kind (row s k x ∷ rows) hd v e =
    elim (Bool-cases (row_matches state kind (row s k x))) [
      | inl hit ↦
          moved check s state k kind x hd (hit_state state kind s k x hit)
            (hit_kind state kind s k x hit) (some-injective x hd (rw hit at e))
            (both (check s k x) (every check rows) v).0
      | inr miss ↦
          found_every check state kind rows hd (both (check s k x) (every check rows) v).1
            (rw miss at e)
    ]

-- What holds before an event and after each handler that the table has for it holds after it.
pub execute_by :
    {σ : Type 0} (h : Hardware σ) (check : State → EventType → Handler → Bool)
    (P : World σ → Type 0) (event : Event) (w : World σ)
    → every check ecc_table ≡ true
    → P w
    → ((hd : Handler) → check w.vector.state event.kind hd ≡ true → P (run_handler h hd event w).0)
    → P (execute h event w)
unfolding execute dispatch
execute_by h check P event w v idle step =
    elim (Option-cases (find_handler w.vector.state event.kind ecc_table)) [
      | inl none_found ↦ rw none_found idle
      | inr (hd, e) ↦ rw e (step hd (found_every check w.vector.state event.kind ecc_table hd v e))
    ]
