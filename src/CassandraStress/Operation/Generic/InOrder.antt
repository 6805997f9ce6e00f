-- ===== src/CassandraStress/Operation/Generic/InOrder.antt =====
-- The rows of the operations that succeed.
use cql_stress.Configuration.{ControlFlow, OperationContext}
use cql_stress.Common.{
  ℕ, zero, suc, ◌≡◌, refl, sym, ap, ◌∙◌, Bool-cases, inl, inr, Option, none, some, Result, ok, err,
  List, [], ◌∷◌, ◌++◌, append_assoc, append-nil, length, ◌⊎◌,
}
use cql_stress.CassandraStress.Operation.Generic.{
  OperationParts, GenericOperation, create_operation, is_done, row_to_use, conclude,
  perform_and_account, execute_generic,
}

module _ {E R W S D : Type 0} (parts : OperationParts E R W S D) where
  -- the first `k` rows of a workload
  abbrev pub workload_rows : ℕ → W → List R
  workload_rows zero w = []
  workload_rows (suc k) w = (parts.generate_row w).0 ∷ workload_rows k (parts.generate_row w).1

  -- the rows that an operation has yet to perform
  abbrev pub upcoming : ℕ → W → Option R → List R
  upcoming k w none = workload_rows k w
  upcoming zero w (some row) = []
  upcoming (suc k) w (some row) = row ∷ workload_rows k w

  -- A database that notes the rows that it performs with success, beside what it is.
  abbrev pub noted : R → List R × D → Result E ControlFlow × D → Result E ControlFlow × (List R × D)
  noted row (rows, db) (ok flow, db') = (ok flow, (rows ++ row ∷ [], db'))
  noted row (rows, db) (err e, db') = (err e, (rows, db'))

  unfoldable pub noting : OperationParts E R W S (List R × D)
  noting = record {
    generate_row = parts.generate_row;
    perform = λ row noted_db. noted row noted_db (parts.perform row noted_db.1);
    account_operation = parts.account_operation;
  }

  -- the database after the calls
  unfoldable pub run_calls :
      List OperationContext → GenericOperation R W S → List R × D → List R × D
  unfolding noting
  run_calls [] op db = db
  run_calls (ctx ∷ calls) op db =
      let (r, op', db') = execute_generic noting op ctx db in run_calls calls op' db'

  -- What a call does: its rows are those that are noted, and come next.
  abbrev Outcome :
      List R → Result E ControlFlow × GenericOperation R W S × (List R × D) → (ℕ → List R) → Type 0
  Outcome rows t up =
      ((t.2.0 ≡ rows) × ((k : ℕ) → upcoming k t.1.workload t.1.cached_row ≡ up k))
      ⊎ ((row : R) × (t.2.0 ≡ rows ++ row ∷ [])
          × ((k : ℕ) → row ∷ upcoming k t.1.workload t.1.cached_row ≡ up (suc k)))

  upcoming-generated :
      (k : ℕ) (w : W)
      → upcoming k (parts.generate_row w).1 (some (parts.generate_row w).0) ≡ workload_rows k w
  upcoming-generated zero w = refl
  upcoming-generated (suc k) w = refl

  row_to_use-cached :
      (op : GenericOperation R W S) (cache : Option R)
      → op.cached_row ≡ cache
      → ((row_to_use parts op cache).1.cached_row ≡ some (row_to_use parts op cache).0)
        × ((k : ℕ)
            → upcoming k (row_to_use parts op cache).1.workload (some (row_to_use parts op cache).0)
              ≡ upcoming k op.workload cache)
  unfolding row_to_use
  row_to_use-cached op (some row) e = (e, λ k. refl)
  row_to_use-cached op none e = (refl, λ k. upcoming-generated k op.workload)

  performed-Outcome :
      (op : GenericOperation R W S) (ctx : OperationContext) (row : R) (rows : List R) (db : D)
      (answer : Result E ControlFlow × D) (up : ℕ → List R)
      → parts.perform row db ≡ answer
      → op.cached_row ≡ some row
      → ((k : ℕ) → upcoming k op.workload (some row) ≡ up k)
      → Outcome rows (perform_and_account noting ctx (rows, db) (row, op)) up
  unfolding perform_and_account conclude noting
  performed-Outcome op ctx row rows db (err e, db') up answered cached h =
      rw (noted, answered) (inl (refl, λ k. ap (upcoming k op.workload) cached ∙ h k))
  performed-Outcome op ctx row rows db (ok flow, db') up answered cached h =
      rw (noted, answered) (inr (row, refl, λ k. h (suc k)))

  execute_generic-Outcome :
      (op : GenericOperation R W S) (ctx : OperationContext) (rows : List R) (db : D)
      → Outcome rows
          (execute_generic noting op ctx (rows, db))
          (λ k. upcoming k op.workload op.cached_row)
  unfolding execute_generic noting
  execute_generic-Outcome op ctx rows db =
      elim (Bool-cases (is_done op.max_operations ctx.operation_id)) [
        | inl over ↦ rw over (inl (refl, λ k. refl))
        | inr going ↦
            let t = row_to_use parts op op.cached_row in
            let (cached, same) = row_to_use-cached op op.cached_row refl in
            rw going (
              performed-Outcome t.1 ctx t.0 rows db (parts.perform t.0 db)
                (λ k. upcoming k op.workload op.cached_row) refl cached same)
      ]

  no_more : (w : W) (cache : Option R) → upcoming zero w cache ≡ []
  no_more w none = refl
  no_more w (some row) = refl

  -- What the calls add to the note.
  run_calls-upcoming :
      (calls : List OperationContext) (op : GenericOperation R W S) (rows : List R) (db : D)
      → (new : List R) × ((run_calls calls op (rows, db)).0 ≡ rows ++ new)
        × (new ≡ upcoming (length new) op.workload op.cached_row)
  unfolding run_calls
  run_calls-upcoming [] op rows db =
      ([], sym (append-nil rows), sym (no_more op.workload op.cached_row))
  run_calls-upcoming (ctx ∷ calls) op rows db =
      let t = execute_generic noting op ctx (rows, db) in
      let (new, total, next_rows) = run_calls-upcoming calls t.1 t.2.0 t.2.1 in
      elim (execute_generic-Outcome op ctx rows db) [
        | inl (kept, same) ↦ (new, total ∙ ap (λ l. l ++ new) kept, next_rows ∙ same (length new))
        | inr (row, noted_row, same) ↦ (
          row ∷ new,
          total ∙ ap (λ l. l ++ new) noted_row ∙ append_assoc rows (row ∷ []) new,
          ap (λ l. row ∷ l) next_rows ∙ same (length new),
        )
      ]

  -- Over any calls of a new operation, with failures, retries and calls behind the maximum among
  -- them, the rows that the database is asked to perform, and performs with success, are the first
  -- rows of the workload, each once and in order.
  pub run_calls-create_operation :
      (calls : List OperationContext) (w : W) (stats : S) (max_ops : Option ℕ) (db : D)
      → let rows = (run_calls calls (create_operation w stats max_ops) ([], db)).0 in
        rows ≡ workload_rows (length rows) w
  unfolding create_operation
  run_calls-create_operation calls w stats max_ops db =
      let (new, total, in_order) =
        run_calls-upcoming calls (create_operation w stats max_ops) [] db in
      total ∙ in_order ∙ ap (λ l. workload_rows (length l) w) (sym total)
