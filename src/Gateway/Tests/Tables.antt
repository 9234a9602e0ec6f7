-- ===== src/Gateway/Tests/Tables.antt =====
-- Tests of the database store.
use agentpay.Prelude.{
  ℕ, ◌≡◌, ◌<◌, ◌≤◌, refl, true, Option, none, some, List, [], ◌∷◌, arith, ok, err, ◌==◌,
}
use agentpay.Prelude.Int.{pos, ◌+ℤ◌}
use agentpay.Prelude.Words.{i64_max}
use agentpay.Prelude.Bytes.{Bytes}
use agentpay.Gateway.State.{
  SessionRecord, Sessions, ClaimAccepted, ClaimRejection, empty, evaluate_claim, unavailable,
  not_monotonic,
}
use agentpay.Gateway.State.Histories.{opens, admits, settles}
use agentpay.Gateway.Evidence.{verify_chain, verify_from, append_evidence, next_link}
use agentpay.Gateway.Keyed.{find, set_row}
use agentpay.Gateway.Database.{
  Tables, no_tables, store_open, store_admit_claim, store_mark_settled, save_session,
  upsert_claim_high_water_mark, mark_session_settled, locked_record, current_mark,
  recorded_evidence, recorded_decision, finish_claim, upsert_ticket,
}
use agentpay.Gateway.Database.{
  settle_row, session_row, row_to_record, ticket_columns, get_session_merkle_root,
}
use agentpay.Gateway.Database.Represents.{Represents}
use agentpay.Gateway.Database.Refines.{opened_tables, opened-Represents, set_row-Represents}
use agentpay.Gateway.Database.Histories.{
  Request, ask_database, done, judged, failed, Follows, AllOpenNew, run_database,
  run_database-Follows,
}
use agentpay.Gateway.Database.Frozen.{settled_root_is_final}
use agentpay.Program.Runtime.{update}
use agentpay.Gateway.Database.Bounds.{answers, admit_claim_bounds}
use agentpay.Gateway.Tests.{sample_record, sample_claim, sample_accepted, sample_store, toy_hash}

-- A stand-in for Base58.
abbrev show_key : ℕ → Bytes
show_key k = k ∷ []

abbrev read_key : Bytes → Option ℕ
read_key [] = none
read_key (k ∷ []) = some k
read_key (k ∷ j ∷ rest) = none

read_key-show_key : (k : ℕ) → read_key (show_key k) ≡ some k
read_key-show_key k = refl

no_tables-Represents : Represents show_key read_key no_tables empty
unfolding find
no_tables-Represents k = refl

-- A session is opened, a claim is claim_reply, the same claim is sent again, once while the
-- database is down, and the session is settled.
abbrev history : List Request
history =
    record { call = opens sample_record; fails = answers; clock = pos 400 }
    ∷ record { call = admits sample_claim 99 (pos 500); fails = answers; clock = pos 500 }
    ∷ record { call = admits sample_claim 99 (pos 500); fails = answers; clock = pos 500 }
    ∷ record { call = admits sample_claim 99 (pos 500); fails = λ n. n == 5; clock = pos 500 }
    ∷ record { call = settles 7; fails = answers; clock = pos 600 }
    ∷ []

history-AllOpenNew : AllOpenNew history
history-AllOpenNew = (
  record { unclaimed = refl; no_nonce = refl; no_claim = refl; unsettled = refl },
  (tt, (tt, (tt, (tt, tt)))),
)

run_database-Follows_example :
    (m' : Sessions) × Follows history empty
      (run_database show_key read_key toy_hash history no_tables).0
      m'
    × Represents show_key read_key (run_database show_key read_key toy_hash history no_tables).1 m'
run_database-Follows_example =
    run_database-Follows show_key read_key toy_hash read_key-show_key history no_tables empty
      no_tables-Represents history-AllOpenNew

history_answers :
    (run_database show_key read_key toy_hash history no_tables).0
    ≡ done
      ∷ judged (ok sample_accepted)
      ∷ judged (err not_monotonic)
      ∷ failed unavailable
      ∷ done
      ∷ []
unfolding run_database ask_database store_open store_admit_claim store_mark_settled save_session
    upsert_claim_high_water_mark mark_session_settled find locked_record current_mark
    recorded_evidence recorded_decision evaluate_claim ◌+ℤ◌ append_evidence next_link finish_claim
    upsert_ticket
history_answers = refl

abbrev opened : Tables
opened = opened_tables show_key sample_record no_tables

opened_sample-Represents : Represents show_key read_key opened sample_store
unfolding find
opened_sample-Represents =
    opened-Represents show_key read_key read_key-show_key no_tables empty sample_record
      no_tables-Represents history-AllOpenNew.0 refl

admit_claim_bounds_example :
    ((x : ClaimRejection)
      → evaluate_claim sample_record sample_claim (pos 500) ≡ err x
      → (t' : Tables) × (store_admit_claim show_key read_key toy_hash answers sample_claim 99
            (pos 500)
            opened
          ≡ ok (err x, t')))
    × ((a : ClaimAccepted)
        → evaluate_claim sample_record sample_claim (pos 500) ≡ ok a
        → sample_claim.nonce ≤ i64_max
        → (t' : Tables) × (store_admit_claim show_key read_key toy_hash answers sample_claim 99
              (pos 500)
              opened
            ≡ ok (ok a, t')))
    × ((a : ClaimAccepted)
        → evaluate_claim sample_record sample_claim (pos 500) ≡ ok a
        → i64_max < sample_claim.nonce
        → store_admit_claim show_key read_key toy_hash answers sample_claim 99 (pos 500) opened
          ≡ err unavailable)
unfolding verify_chain verify_from
admit_claim_bounds_example =
    admit_claim_bounds show_key read_key toy_hash sample_claim 99 (pos 500) opened sample_store
      sample_record read_key-show_key opened_sample-Represents refl (omega arith) refl (omega arith)

abbrev settled : SessionRecord
settled = record sample_record { is_settled = true }

abbrev settled_tables : Tables
settled_tables = record opened {
  sessions = set_row (show_key 7) (settle_row (pos 600)) opened.sessions;
}

settled_tables-Represents :
    Represents show_key read_key settled_tables (update sample_store 7 (some settled))
unfolding find row_to_record ticket_columns set_row
settled_tables-Represents =
    set_row-Represents show_key read_key read_key-show_key opened sample_store 7
      (settle_row (pos 600)) (session_row show_key sample_record (pos 100)) settled
      opened_sample-Represents refl refl

settled_root_is_final_example :
    get_session_merkle_root show_key toy_hash answers 7
      (run_database show_key read_key toy_hash history settled_tables).1
    ≡ get_session_merkle_root show_key toy_hash answers 7 settled_tables
settled_root_is_final_example =
    settled_root_is_final show_key read_key toy_hash read_key-show_key history settled_tables
      (update sample_store 7 (some settled)) 7 answers settled_tables-Represents history-AllOpenNew
      (settled, refl, refl)
