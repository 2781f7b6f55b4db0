-- ===== src/Wallet/Finish.antt =====
-- The end of a handler: what `finish` makes of the body of a transaction.
use ppv_stream_rust.Prelude.{◌≡◌, refl, ◌⊎◌, inl, inr, Bool-cases, arith, if◌then◌else◌}
use ppv_stream_rust.Prelude.Attempt.{Attempt, done, stopped}
use ppv_stream_rust.Tables.{Store}
use ppv_stream_rust.Transaction.{Stmt, Faults, Tx}
use ppv_stream_rust.Wallet.{Error, Reply, failed, finish}

-- Either an error is answered and the tables are untouched, or the body ended and was committed.
pub finish_cases :
    (fails : Faults) (s : Store) (m : Attempt Error (Tx × Reply))
    → ((e : Error) × (finish fails s m ≡ (failed e, s)))
      ⊎ ((tx : Tx) × (r : Reply) × (m ≡ done (tx, r))
          × (finish fails s m ≡ (r, if tx.aborted then s else tx.store)))
unfolding finish
finish_cases fails s (stopped e) = inl (e, refl)
finish_cases fails s (done (tx, r)) = elim (Bool-cases (fails Stmt.commit)) [
  | inl lost ↦ inl (Error.db_failed Stmt.commit, ground arith)
  | inr kept ↦ inr (tx, r, refl, ground arith)
]
