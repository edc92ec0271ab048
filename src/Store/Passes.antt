-- ===== src/Store/Passes.antt =====
-- What the passes over many runs, of recovery and of the deadline sweep, keep of a run that they do
-- not select.
use skill2workflow.Prelude.{
  ℕ, String, ◌≡◌, refl, ◌∙◌, Bool, false, Option, [], ◌∷◌, arith, ◌==◌, inl, inr, Bool-cases,
  Option-cases, ◌&&◌,
}
use skill2workflow.Dict.{Dict, lookup, lookup-insert}
use skill2workflow.Clock.{Datetime}
use skill2workflow.Result.{ok, ok-injective, >>=-eq-ok}
use skill2workflow.Run.{RunState, is_live}
use skill2workflow.Store.Db.{TicketStatus, released, Db, is_active, upsert_state, interrupt_state}
use skill2workflow.Store.Cancel.{cancellation_requested}
use skill2workflow.Store.Recover.{
  set_ticket, interrupt_ticket, Batch, interrupt_row, recover_row, recover_rows, reached,
}
use skill2workflow.Store.Sweep.{Expiry, expire_waiting_workflow_state, expire_row, expire_rows}
use skill2workflow.Store.Locks.{runs-settle, executions-settle}
use skill2workflow.Store.Effects.{upsert_at}
use skill2workflow.Store.Deadlines.{expire_state-Expires}
use skill2workflow.Store.Keyed.{Keyed, Rows, Keyed-settle, Keyed-set_ticket, Keyed-upsert}

-- The run's rows are as they were, and the tables' keys are still keys.
pub record Kept (r : String) (a b : Db) : Type 0 where
  pub runs : lookup r b.runs ≡ lookup r a.runs
  pub executions : lookup r b.executions ≡ lookup r a.executions
  pub keyed : Keyed a → Keyed b

-- A row of another run.
abbrev pub IsOther : String → String → RunState → Type 0
IsOther r k s = ((k == r) ≡ false) × (s.run_id ≡ k)

module _ (r : String) where
  Kept-refl : (a b : Db) → a ≡ b → Kept r a b
  Kept-refl a b e = rw (← e) (record { runs = refl; executions = refl; keyed = λ h. h })

  Kept-trans : (a b c : Db) → Kept r a b → Kept r b c → Kept r a c
  Kept-trans a b c h k = record {
    runs = k.runs ∙ h.runs;
    executions = k.executions ∙ h.executions;
    keyed = λ x. k.keyed (h.keyed x);
  }

  Kept-set_ticket :
      (status : TicketStatus) (k : String) (db : Db)
      → (k == r) ≡ false
      → Kept r db (set_ticket status k db)
  unfolding set_ticket
  Kept-set_ticket status k db other = elim (Option-cases (lookup k db.executions)) [
    | inl p ↦ rw (p, set_ticket) (Kept-refl db db refl)
    | inr (t, p) ↦ record {
      runs = rw (p, set_ticket) refl;
      executions =
          rw (p, set_ticket)
            (ground (arith, lookup-insert k r (record t { status = status }) db.executions));
      keyed = λ h. Keyed-set_ticket status k db h;
    }
  ]

  Kept-interrupt_ticket :
      (k : String) (db : Db) → (k == r) ≡ false → Kept r db (interrupt_ticket k db)
  unfolding interrupt_ticket
  Kept-interrupt_ticket k db other = elim (Option-cases (lookup k db.executions)) [
    | inl p ↦ rw (p, interrupt_ticket) (Kept-refl db db refl)
    | inr (t, p) ↦ elim (Bool-cases (is_active t.status)) [
      | inl a ↦ rw (p, interrupt_ticket, a) (Kept-set_ticket TicketStatus.interrupted k db other)
      | inr a ↦ rw (p, interrupt_ticket, a) (Kept-refl db db refl)
    ]
  ]

  module _ (encodes : RunState → Bool) where
    Kept-upsert :
        (s : RunState) (db w : Db)
        → (s.run_id == r) ≡ false
        → upsert_state encodes s db ≡ ok w
        → Kept r db w
    Kept-upsert s db w other e =
        let (runs, held, asked) = upsert_at encodes r s db w e in
        record {
          runs = ground arith;
          executions = ground arith;
          keyed = λ h. Keyed-upsert encodes s db w e h;
        }

    Kept-interrupt_row :
        (now k : String) (s : RunState) (db db' : Db)
        → IsOther r k s
        → interrupt_row encodes now k s db ≡ ok db'
        → Kept r db db'
    unfolding interrupt_row interrupt_state
    Kept-interrupt_row now k s db db' (other, own) e =
        let (w, p, q) = >>=-eq-ok (upsert_state encodes (interrupt_state now s) db) _ e in
        let t = interrupt_ticket k w in
        let c = lookup k t.cancellations in
        let settled : Kept r t db' = rw (← ok-injective q) (record {
          runs = rw runs-settle refl;
          executions = rw executions-settle refl;
          keyed = λ h. Keyed-settle c k t h;
        }) in
        Kept-trans db t db'
          (Kept-trans db w t (Kept-upsert (interrupt_state now s) db w (rw own other) p)
            (Kept-interrupt_ticket k w other))
          settled

    Kept-recover_row :
        (now k : String) (s : RunState) (b : Batch) (st : Batch × Bool)
        → IsOther r k s
        → recover_row encodes now k s b ≡ ok st
        → Kept r b.db st.0.db
    unfolding recover_row
    Kept-recover_row now k s b st other e = elim (Bool-cases (is_live s.status)) [
      | inl live ↦
          let (db', p, q) = >>=-eq-ok (interrupt_row encodes now k s b.db) _ (rw live at e) in
          rw (← ok-injective q) (Kept-interrupt_row now k s b.db db' other p)
      | inr dead ↦ rw (← ok-injective (rw dead at e)) (Kept-set_ticket released k b.db other.0)
    ]

    pub Kept-recover_rows :
        (now : String) (max_items : Option ℕ) (rows : Dict RunState) (b b' : Batch)
        → Rows (IsOther r) rows
        → recover_rows encodes now max_items rows b ≡ ok b'
        → Kept r b.db b'.db
    unfolding recover_rows
    Kept-recover_rows now max_items [] b b' h e = rw (← ok-injective e) (Kept-refl b.db b.db refl)
    Kept-recover_rows now max_items ((k, s) ∷ rows) b b' (here, rest) e =
        let (st, p, q) = >>=-eq-ok (recover_row encodes now k s b) _ e in
        let first = Kept-recover_row now k s b st here p in
        elim (Bool-cases (st.1 && reached max_items st.0.processed)) [
          | inl full ↦ rw (← ok-injective (rw full at q)) first
          | inr more ↦
              Kept-trans b.db st.0.db b'.db first
                (Kept-recover_rows now max_items rows st.0 b' rest (rw more at q))
        ]

    Kept-expire_row :
        (dt : Datetime) (now k : String) (s : RunState) (a b : Expiry)
        → IsOther r k s
        → expire_row encodes dt now k s a ≡ ok b
        → Kept r a.db b.db
    unfolding expire_row
    Kept-expire_row dt now k s a b (other, own) e =
        elim (Bool-cases (cancellation_requested k a.db)) [
          | inl asked ↦ rw (← ok-injective (rw asked at e)) (Kept-refl a.db a.db refl)
          | inr quiet ↦
              let e' = rw quiet at e in
              elim (Option-cases (expire_waiting_workflow_state dt now s)) [
                | inl p ↦ rw (← ok-injective (rw p at e')) (Kept-refl a.db a.db refl)
                | inr (u, p) ↦
                    let (w, i, j) = >>=-eq-ok (upsert_state encodes u a.db) _ (rw p at e') in
                    let made = expire_state-Expires dt now s u p in
                    rw (← ok-injective j) (Kept-upsert u a.db w (rw (made.same_run, own) other) i)
              ]
        ]

    pub Kept-expire_rows :
        (dt : Datetime) (now : String) (rows : Dict RunState) (a b : Expiry)
        → Rows (IsOther r) rows
        → expire_rows encodes dt now rows a ≡ ok b
        → Kept r a.db b.db
    unfolding expire_rows
    Kept-expire_rows dt now [] a b h e = rw (← ok-injective e) (Kept-refl a.db a.db refl)
    Kept-expire_rows dt now ((k, s) ∷ rows) a b (here, rest) e =
        let (c, p, q) = >>=-eq-ok (expire_row encodes dt now k s a) _ e in
        Kept-trans a.db c.db b.db (Kept-expire_row dt now k s a c here p)
          (Kept-expire_rows dt now rows c b rest q)
