-- ===== src/CassandraStress/Mixed/Retry.antt =====
-- What a retry of an operation does.
use cql_stress.Configuration.{ControlFlow, OperationContext, break_flow}
use cql_stress.Common.{
  ℕ, ◌<◌, ◌≡◌, refl, ap, sym, subst, true, ◌∙◌, false, Bool-cases, inl, inr, ◌==◌, Option, none,
  some, Result, ok, err, arith,
}
use cql_stress.CassandraStress.Mixed.{
  Parts, MixedOperation, is_over, choose, take_row, settle, perform_row, execute,
}

-- an operation in the middle of a run, with a row in its cache
record IsReady {R W : Type 0} (op : MixedOperation R W) (row : R) (id : ℕ) : Type 0 where
  cached : op.cached_row ≡ some row
  goes_on : 0 < op.current_operation_remaining
  allowed : is_over op.max_operations id ≡ false

ok-ne-err : {E : Type 0} {flow : ControlFlow} {e : E} → ¬ (ok flow ≡ err e)
ok-ne-err h = ground arith

module _ {E R W D : Type 0} (parts : Parts E R W D) where
  choose_lem :
      (op : MixedOperation R W)
      → (0 < (choose parts op).current_operation_remaining)
        × ((choose parts op).max_operations ≡ op.max_operations)
  unfolding choose
  choose_lem op = ground arith

  take_row_lem :
      (op : MixedOperation R W) (id : ℕ) (cache : Option R)
      → op.cached_row ≡ cache
      → 0 < op.current_operation_remaining
      → is_over op.max_operations id ≡ false
      → IsReady (take_row parts op cache).1 (take_row parts op cache).0 id
  unfolding take_row
  take_row_lem op id none c g a = record { cached = refl; goes_on = g; allowed = a }
  take_row_lem op id (some row) c g a = record { cached = c; goes_on = g; allowed = a }

  settle_err :
      (op : MixedOperation R W) (r : Result E ControlFlow) (e : E)
      → (settle parts op r).0 ≡ err e
      → (r ≡ err e) × ((settle parts op r).1 ≡ op)
  unfolding settle
  settle_err op (ok flow) e h = cc
  settle_err op (err e') e h = (h, refl)

  settle_result :
      (op : MixedOperation R W) (r : Result E ControlFlow)
      → ((settle parts op r).0 ≡ r) × ((settle parts op r).1.generators ≡ op.generators)
  unfolding settle
  settle_result op (ok flow) = (refl, refl)
  settle_result op (err e) = (refl, refl)

  execute_ready :
      (op : MixedOperation R W) (row : R) (ctx : OperationContext) (db : D)
      → IsReady op row ctx.operation_id
      → execute parts op ctx db ≡ settle parts op (parts.perform op.current_operation row db)
  unfolding execute choose take_row perform_row
  execute_ready op row ctx db v =
      let c = v.cached in
      let g : (op.current_operation_remaining == 0) ≡ false = ground (arith, v.goes_on) in
      rw (v.allowed, g, c) refl

  execute_over :
      (op : MixedOperation R W) (ctx : OperationContext) (db : D)
      → is_over op.max_operations ctx.operation_id ≡ true
      → (execute parts op ctx db).0 ≡ ok break_flow
  unfolding execute
  execute_over op ctx db h = rw h refl

  perform_row_lem :
      (db : D) (t : R × MixedOperation R W)
      → perform_row parts db t ≡ settle parts t.1 (parts.perform t.1.current_operation t.0 db)
  unfolding perform_row
  perform_row_lem db (row, op) = refl

  execute_allowed :
      (op : MixedOperation R W) (ctx : OperationContext) (db : D)
      → is_over op.max_operations ctx.operation_id ≡ false
      → execute parts op ctx db
        ≡ perform_row parts db (take_row parts (choose parts op) (choose parts op).cached_row)
  unfolding execute
  execute_allowed op ctx db h = rw h refl

  -- what is known of a failed operation
  abbrev Failed : ℕ → D → E → Result E ControlFlow × MixedOperation R W → Type 0
  Failed id db e t =
      (row : R) × IsReady t.1 row id × (parts.perform t.1.current_operation row db ≡ err e)

  settle-Failed :
      (op : MixedOperation R W) (row : R) (id : ℕ) (db : D) (e : E)
      → IsReady op row id
      → (settle parts op (parts.perform op.current_operation row db)).0 ≡ err e
      → Failed id db e (settle parts op (parts.perform op.current_operation row db))
  settle-Failed op row id db e v h =
      let r = parts.perform op.current_operation row db in
      let (failed, kept) = settle_err op r e h in
      subst (λ o. Failed id db e ((settle parts op r).0, o)) (sym kept) (row, v, failed)

  execute-Failed :
      (op : MixedOperation R W) (ctx : OperationContext) (db : D) (e : E)
      → (execute parts op ctx db).0 ≡ err e
      → Failed ctx.operation_id db e (execute parts op ctx db)
  execute-Failed op ctx db e h = elim (Bool-cases (is_over op.max_operations ctx.operation_id)) [
    | inl over ↦ absurd (ok-ne-err (sym (execute_over op ctx db over) ∙ h))
    | inr allowed ↦
        let op' = choose parts op in
        let t = take_row parts op' op'.cached_row in
        let ready =
          take_row_lem op' ctx.operation_id op'.cached_row refl ((choose_lem op).0)
            (ap (λ m. is_over m ctx.operation_id) (choose_lem op).1 ∙ allowed) in
        let same = execute_allowed op ctx db allowed ∙ perform_row_lem db t in
        subst (Failed ctx.operation_id db e) (sym same)
          (settle-Failed t.1 t.0 ctx.operation_id db e ready (sym (ap (λ u. u.0) same) ∙ h))
  ]

  -- After a failure the operation keeps its kind and its row: a retry, which has the same operation
  -- id, whatever the database does now, performs the same kind of operation on the same row, and
  -- generates nothing.
  pub execute-retry :
      (op : MixedOperation R W) (ctx ctx' : OperationContext) (db db' : D) (e : E)
      → (execute parts op ctx db).0 ≡ err e
      → ctx'.operation_id ≡ ctx.operation_id
      → (row : R) × (parts.perform (execute parts op ctx db).1.current_operation row db ≡ err e)
        × ((execute parts (execute parts op ctx db).1 ctx' db').0
            ≡ parts.perform (execute parts op ctx db).1.current_operation row db')
        × ((execute parts (execute parts op ctx db).1 ctx' db').1.generators
            ≡ (execute parts op ctx db).1.generators)
  execute-retry op ctx ctx' db db' e h k =
      let (row, ready, failed) = execute-Failed op ctx db e h in
      let op' = (execute parts op ctx db).1 in
      let ready' : IsReady op' row ctx'.operation_id = record {
        cached = ready.cached;
        goes_on = ready.goes_on;
        allowed = ap (is_over op'.max_operations) k ∙ ready.allowed;
      } in
      let again = execute_ready op' row ctx' db' ready' in
      let result = settle_result op' (parts.perform op'.current_operation row db') in
      (row, failed, ap (λ t. t.0) again ∙ result.0, ap (λ t. t.1.generators) again ∙ result.1)
