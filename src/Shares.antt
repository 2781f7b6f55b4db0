-- ===== src/Shares.antt =====
-- src/federation/revenue.rs and sql/041_federation_revenue.sql: the tables of revenue sharing, their
-- statements and the arithmetic of a share.
use ppv_stream_rust.Prelude.{
  ℕ, ◌+◌, String, Bool, true, false, not, ◌&&◌, ◌||◌, Option, none, some, List, [], ◌∷◌, ◌==◌,
  nat_eq, is_some, if◌then◌else◌,
}
use ppv_stream_rust.Prelude.Int.{ℤ, pos, ltb_ℤ, leb_ℤ, ◌*ℤ◌, quot}
use ppv_stream_rust.Prelude.Word.{wrap64}
use ppv_stream_rust.Prelude.Attempt.{Attempt, done, stopped, stop_if}

-- `federation_revenue_shares.status`
pub data ShareStatus : Type 0 where
  pending settled reversed : ShareStatus

-- `federation_revenue_shares`
pub record Share : Type 0 where
  pub id : ℕ
  pub invoice_id : String
  pub invoice_type : String
  pub referral_id : Option ℕ
  pub referring_domain : String
  pub gross_cents : ℤ
  pub share_basis_points : ℤ
  pub share_cents : ℤ
  pub status : ShareStatus

-- `revenue_ledger_entries`
pub record Entry : Type 0 where
  pub id : ℕ
  pub revenue_share_id : ℕ
  pub entry_type : String
  pub amount_cents : ℤ
  pub description : Option String

-- `revenue_share_policies`
pub record Policy : Type 0 where
  pub instance_domain : String
  pub share_basis_points : ℤ
  pub is_active : Bool
  pub created_by : String

-- The tables. `Uuid::new_v4` does not repeat itself: a new id is the next number.
pub record RevenueStore : Type 0 where
  pub shares : List Share
  pub entries : List Entry
  pub policies : List Policy
  pub next_id : ℕ

-- The statements, any of which may fail.
pub data Query : Type 0 where
  find_existing find_policy insert_share insert_entry find_pending update_share upsert_policy :
      Query

pub data RevenueError : Type 0 where
  query_failed : Query → RevenueError
  out_of_range : ℤ → RevenueError
  bad_entry_type : String → RevenueError

unfoldable pub calculate_share_cents : ℤ → ℤ → ℤ
calculate_share_cents gross basis_points =
    if leb_ℤ basis_points (pos 0) || leb_ℤ gross (pos 0)
    then pos 0
    else quot (wrap64 (gross *ℤ basis_points)) 10000

abbrev pub in_range : ℤ → Bool
in_range bp = leb_ℤ (pos 0) bp && leb_ℤ bp (pos 5000)

unfoldable pub validate_basis_points : ℤ → Attempt RevenueError (Unit {0})
validate_basis_points bp = stop_if (not (in_range bp)) (RevenueError.out_of_range bp)

abbrev pub is_of : String → String → Share → Bool
is_of invoice kind x = x.invoice_id == invoice && x.invoice_type == kind

-- SELECT ... WHERE invoice_id = $1 AND invoice_type = $2 LIMIT 1
unfoldable pub find_share : String → String → List Share → Option Share
find_share invoice kind [] = none
find_share invoice kind (x ∷ xs) =
    if is_of invoice kind x then some x else find_share invoice kind xs

abbrev pub is_pending : ShareStatus → Bool
is_pending ShareStatus.pending = true
is_pending _ = false

-- ... AND status = 'pending' LIMIT 1
unfoldable pub find_pending_share : String → String → List Share → Option Share
find_pending_share invoice kind [] = none
find_pending_share invoice kind (x ∷ xs) =
    if is_of invoice kind x && is_pending x.status
    then some x
    else find_pending_share invoice kind xs

unfoldable pub find_policy_of : String → List Policy → Option Policy
find_policy_of domain [] = none
find_policy_of domain (p ∷ ps) =
    if p.instance_domain == domain then some p else find_policy_of domain ps

unfoldable pub has_share : ℕ → List Share → Bool
has_share i [] = false
has_share i (x ∷ xs) = nat_eq x.id i || has_share i xs

-- `record_ledger_entry`: the entry refers to a share that exists, its type is one of four and its
-- amount is not negative (sql/041_federation_revenue.sql).
unfoldable pub record_ledger_entry :
    (Query → Bool)
    → ℕ
    → String
    → ℤ
    → Option String
    → RevenueStore
    → Attempt RevenueError RevenueStore
record_ledger_entry fails share_id entry_type amount description t =
    if fails Query.insert_entry
      || not (has_share share_id t.shares)
      || ltb_ℤ amount (pos 0)
      || not (
          entry_type == "credit"
          || entry_type == "debit"
          || entry_type == "refund"
          || entry_type == "chargeback")
    then stopped (RevenueError.query_failed Query.insert_entry)
    else done (record t {
      entries =
          record {
            id = t.next_id;
            revenue_share_id = share_id;
            entry_type = entry_type;
            amount_cents = amount;
            description = description;
          }
          ∷ t.entries;
      next_id = t.next_id + 1;
    })

-- INSERT INTO federation_revenue_shares ... ON CONFLICT (invoice_id, invoice_type) DO NOTHING
unfoldable pub with_share : Share → List Share → List Share
with_share x xs = if is_some (find_share x.invoice_id x.invoice_type xs) then xs else x ∷ xs
