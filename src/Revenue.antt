-- ===== src/Revenue.antt =====
-- src/federation/revenue.rs: the share of a payment that the instance which referred its viewer earns.
pub mod Amount
pub mod Once
pub mod Books
pub mod Policies
use ppv_stream_rust.Prelude.{
  ℕ, ◌+◌, String, Bool, true, false, not, ◌&&◌, ◌||◌, Option, none, some, List, [], ◌∷◌, ◌==◌,
  nat_eq, is_some, if◌then◌else◌,
}
use Prim.Native.String
use ppv_stream_rust.Prelude.Int.{ℤ, pos, negsuc, ltb_ℤ, leb_ℤ, ◌*ℤ◌, quot, is_zero}
use ppv_stream_rust.Prelude.Word.{wrap64}
use ppv_stream_rust.Prelude.Attempt.{Attempt, done, stopped, ◌>>=◌, ◌>>◌, or_stop, stop_if}
use ppv_stream_rust.Shares.{
  ShareStatus, Share, Entry, Policy, RevenueStore, Query, RevenueError, calculate_share_cents,
  in_range, validate_basis_points, is_of, find_share, is_pending, find_pending_share,
  find_policy_of, has_share, record_ledger_entry, with_share, pending, settled, reversed,
  find_existing, find_policy, insert_share, insert_entry, find_pending, update_share, upsert_policy,
  query_failed, out_of_range, bad_entry_type,
}

-- What `process_revenue_share` finds before it writes: nothing to do, or the domain, its basis points
-- and the share.
pub record Due : Type 0 where
  pub domain : String
  pub basis_points : ℤ
  pub cents : ℤ

-- `Ok(None)`, `Err` or what is due.
pub data Halt : Type 0 where
  skip : Halt
  broke : RevenueError → Halt

abbrev pub named_domain : Option String → Option String
named_domain none = none
named_domain (some d) = if d == "" then none else some d

abbrev pub valid_or_broke : ℤ → Attempt Halt (Unit {0})
valid_or_broke bp = elim (validate_basis_points bp) [
  | stopped e ↦ stopped (broke e)
  | done u ↦ done u
]

unfoldable pub share_due :
    (Query → Bool) → String → String → Option String → ℤ → RevenueStore → Attempt Halt Due
share_due fails invoice kind referring_domain gross t = do
  stop_if (fails Query.find_existing) (broke (RevenueError.query_failed Query.find_existing))
  stop_if (is_some (find_share invoice kind t.shares)) skip
  domain ← or_stop (named_domain referring_domain) skip
  stop_if (fails Query.find_policy) (broke (RevenueError.query_failed Query.find_policy))
  policy ← or_stop (find_policy_of domain t.policies) skip
  stop_if (not policy.is_active) skip
  valid_or_broke policy.share_basis_points
  let cents = calculate_share_cents gross policy.share_basis_points
  stop_if (is_zero cents) skip
  done (record { domain = domain; basis_points = policy.share_basis_points; cents = cents })

-- The share is inserted under a new id; the table refuses negative amounts.
unfoldable pub add_share :
    (Query → Bool)
    → String
    → String
    → Option ℕ
    → ℤ
    → Due
    → RevenueStore
    → Attempt RevenueError RevenueStore
add_share fails invoice kind referral gross d t =
    if fails Query.insert_share || ltb_ℤ gross (pos 0) || ltb_ℤ d.cents (pos 0)
    then stopped (RevenueError.query_failed Query.insert_share)
    else done (record t {
      shares =
          with_share
            (record {
              id = t.next_id;
              invoice_id = invoice;
              invoice_type = kind;
              referral_id = referral;
              referring_domain = d.domain;
              gross_cents = gross;
              share_basis_points = d.basis_points;
              share_cents = d.cents;
              status = ShareStatus.pending;
            })
            t.shares;
      next_id = t.next_id + 1;
    })

-- The two writes that follow, on the tables of their time; each takes effect by itself.
unfoldable pub write_share :
    (Query → Bool)
    → String
    → String
    → Option ℕ
    → ℤ
    → Due
    → RevenueStore
    → Attempt RevenueError (Option ℤ) × RevenueStore
write_share fails invoice kind referral gross d t =
    elim (add_share fails invoice kind referral gross d t) [
      | stopped e ↦ (stopped e, t)
      | done t' ↦
          elim (record_ledger_entry fails t.next_id "credit" d.cents
            (some (String.◌++◌ "traffic referral from " d.domain)) t') [
              | stopped e ↦ (stopped e, t')
              | done t'' ↦ (done (some d.cents), t'')
            ]
    ]

unfoldable pub process_revenue_share :
    (Query → Bool)
    → String
    → String
    → Option ℕ
    → Option String
    → ℤ
    → RevenueStore
    → Attempt RevenueError (Option ℤ) × RevenueStore
process_revenue_share fails invoice kind referral referring_domain gross t =
    elim (share_due fails invoice kind referring_domain gross t) [
      | stopped h ↦ elim h [ skip ↦ (done none, t) | broke e ↦ (stopped e, t) ]
      | done d ↦ write_share fails invoice kind referral gross d t
    ]

-- UPDATE federation_revenue_shares SET status = 'reversed' WHERE id = $1
unfoldable pub mark_reversed : ℕ → List Share → List Share
mark_reversed i [] = []
mark_reversed i (x ∷ xs) =
    (if nat_eq x.id i then record x { status = ShareStatus.reversed } else x) ∷ mark_reversed i xs

-- The whole function, when nothing else writes the tables between its statements.
unfoldable pub reverse_revenue_share :
    (Query → Bool)
    → String
    → String
    → String
    → RevenueStore
    → Attempt RevenueError (Unit {0}) × RevenueStore
reverse_revenue_share fails invoice kind entry_type t =
    if not (entry_type == "refund" || entry_type == "chargeback")
    then (stopped (RevenueError.bad_entry_type entry_type), t)
    else if fails Query.find_pending
    then (stopped (RevenueError.query_failed Query.find_pending), t)
    else elim (find_pending_share invoice kind t.shares) [
      | none ↦ (done tt, t)
      | some x ↦
          let t' = record t { shares = mark_reversed x.id t.shares } in
          if fails Query.update_share
          then (stopped (RevenueError.query_failed Query.update_share), t)
          else elim (record_ledger_entry fails x.id entry_type x.share_cents none t') [
            | stopped e ↦ (stopped e, t')
            | done t'' ↦ (done tt, t'')
          ]
    ]

-- INSERT INTO revenue_share_policies ... ON CONFLICT (instance_domain) DO UPDATE
unfoldable pub with_policy : String → ℤ → String → List Policy → List Policy
with_policy domain bp by [] =
    record { instance_domain = domain; share_basis_points = bp; is_active = true; created_by = by }
    ∷ []
with_policy domain bp by (p ∷ ps) =
    let rest = with_policy domain bp by ps in
    if p.instance_domain == domain
    then record p { share_basis_points = bp; is_active = true } ∷ ps
    else p ∷ rest

unfoldable pub set_share_policy :
    (Query → Bool)
    → String
    → ℤ
    → String
    → RevenueStore
    → Attempt RevenueError (Unit {0}) × RevenueStore
set_share_policy fails domain bp by t = elim (validate_basis_points bp) [
  | stopped e ↦ (stopped e, t)
  | done _ ↦
      if fails Query.upsert_policy
      then (stopped (RevenueError.query_failed Query.upsert_policy), t)
      else (done tt, record t { policies = with_policy domain bp by t.policies })
]
