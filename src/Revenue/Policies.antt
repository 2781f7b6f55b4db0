-- ===== src/Revenue/Policies.antt =====
-- The policy that the administrator sets and the one that a payment uses.
use ppv_stream_rust.Prelude.{
  String, ◌≡◌, refl, ◌≢◌, inl, inr, Bool, true, false, none, some, List, [], ◌∷◌, arith, ◌==◌,
  eq_iff, Bool-cases,
}
use ppv_stream_rust.Prelude.Int.{ℤ, pos, ◌≤ℤ◌, is_zero}
use ppv_stream_rust.Prelude.Attempt.{done}
use ppv_stream_rust.Revenue.{with_policy, set_share_policy, share_due}
use ppv_stream_rust.Shares.{
  Policy, RevenueStore, Query, find_share, find_policy_of, validate_basis_points,
  calculate_share_cents, in_range,
}

-- The policies that `with_policy` leaves, as a lookup sees them.
find_policy_of-with_policy :
    (domain : String) (bp : ℤ) (by : String) (ps : List Policy)
    → (p : Policy) × (find_policy_of domain (with_policy domain bp by ps) ≡ some p)
      × (p.share_basis_points ≡ bp)
      × (p.is_active ≡ true)
unfolding find_policy_of with_policy
find_policy_of-with_policy domain bp by [] = (
  record { instance_domain = domain; share_basis_points = bp; is_active = true; created_by = by },
  ground (arith, eq_iff domain domain),
  refl,
  refl,
)
find_policy_of-with_policy domain bp by (x ∷ ps) = elim (Bool-cases (x.instance_domain == domain)) [
  | inl same ↦
      (record x { share_basis_points = bp; is_active = true }, rw same (rw same refl), refl, refl)
  | inr other ↦
      let (p, found, b, a) = find_policy_of-with_policy domain bp by ps in
      (p, rw other (rw other found), b, a)
]

other_policy_kept :
    (domain other : String) (bp : ℤ) (by : String) (ps : List Policy)
    → domain ≢ other
    → find_policy_of other (with_policy domain bp by ps) ≡ find_policy_of other ps
unfolding find_policy_of with_policy
other_policy_kept domain other bp by [] ne = ground (arith, eq_iff domain other)
other_policy_kept domain other bp by (x ∷ ps) ne = ground (
  arith,
  eq_iff x.instance_domain domain,
  eq_iff x.instance_domain other,
  other_policy_kept domain other bp by ps ne,
)

set_share_policy-done :
    (fails : Query → Bool) (domain : String) (bp : ℤ) (by : String) (t : RevenueStore)
    → (set_share_policy fails domain bp by t).0 ≡ done tt
    → ((set_share_policy fails domain bp by t).1
        ≡ record t { policies = with_policy domain bp by t.policies })
      × (in_range bp ≡ true)
unfolding set_share_policy validate_basis_points
set_share_policy-done fails domain bp by t h = (ground arith, ground arith)

share_due_by :
    (domain invoice kind : String) (gross bp : ℤ) (t : RevenueStore) (p : Policy)
    → find_policy_of domain t.policies ≡ some p
    → p.share_basis_points ≡ bp
    → p.is_active ≡ true
    → in_range bp ≡ true
    → domain ≢ ""
    → find_share invoice kind t.shares ≡ none
    → is_zero (calculate_share_cents gross bp) ≡ false
    → share_due (λ q. false) invoice kind (some domain) gross t
      ≡ done (record { domain = domain; basis_points = bp; cents = calculate_share_cents gross bp })
unfolding share_due validate_basis_points
share_due_by domain invoice kind gross bp t p found b a r named fresh some_cents =
    ground (arith, eq_iff domain "")

-- After `set_share_policy` has succeeded for a domain, its basis points are at least 0 and at most
-- 5000; a payment that this domain referred, with no share yet and with a share that is not 0, is due
-- exactly that share where no statement fails; and every other domain has the policy it had.
pub set_share_policy_applies :
    (fails : Query → Bool) (domain : String) (bp : ℤ) (by : String) (t : RevenueStore)
    → (set_share_policy fails domain bp by t).0 ≡ done tt
    → let t' = (set_share_policy fails domain bp by t).1 in
      (pos 0 ≤ℤ bp)
      × (bp ≤ℤ pos 5000)
      × ((invoice kind : String) (gross : ℤ)
          → domain ≢ ""
          → find_share invoice kind t.shares ≡ none
          → is_zero (calculate_share_cents gross bp) ≡ false
          → share_due (λ q. false) invoice kind (some domain) gross t'
            ≡ done (record {
              domain = domain;
              basis_points = bp;
              cents = calculate_share_cents gross bp;
            }))
      × ((other : String)
          → domain ≢ other
          → find_policy_of other t'.policies ≡ find_policy_of other t.policies)
set_share_policy_applies fails domain bp by t h =
    let (left, r) = set_share_policy-done fails domain bp by t h in
    let (p, found, b, a) = find_policy_of-with_policy domain bp by t.policies in
    (
      ground arith,
      ground arith,
      λ invoice kind gross named fresh some_cents. rw left (
          share_due_by domain invoice kind gross bp
            (record t { policies = with_policy domain bp by t.policies }) p found b a r named fresh
            some_cents),
      λ other ne. rw left (other_policy_kept domain other bp by t.policies ne),
    )
