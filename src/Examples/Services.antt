-- ===== src/Examples/Services.antt =====
-- The theorems on the middleware and on the federation's services, at small inputs.
use ppv_stream_rust.Prelude.{String, ◌≡◌, refl, Bool, true, false, some, none, List, [], ◌∷◌, arith}
use ppv_stream_rust.Prelude.Int.{pos, ◌*ℤ◌, quot}
use ppv_stream_rust.Prelude.Word.{wrap64}
use ppv_stream_rust.Prelude.Attempt.{done}
use ppv_stream_rust.Middleware.{Request, Method, basic_rate_limit, Headers}
use ppv_stream_rust.Middleware.Limit.{decisions, sliding_window, basic_rate_limit_window}
use ppv_stream_rust.Revenue.{
  process_revenue_share, set_share_policy, share_due, add_share, write_share,
}
use ppv_stream_rust.Shares.{
  RevenueStore, Query, find_share, find_policy_of, with_share, calculate_share_cents,
  validate_basis_points, record_ledger_entry, has_share,
}
use ppv_stream_rust.Revenue.Books.{IsBooked, count_credits, count_reversals}
use ppv_stream_rust.Revenue.Books.Runs.{Act, acts, acts-IsBooked}
use ppv_stream_rust.Delivery.{Job, JobStatus, World}
use ppv_stream_rust.Delivery.Attempts.{process_polls, process_polls_exhausts}

abbrev login : Request
login = record { method = Method.post; path = "/auth/login"; headers = λ name. none }

basic_rate_limit_window_example :
    decisions (basic_rate_limit false) ((login, 5) ∷ (login, 9) ∷ []) (λ key. [])
    ≡ decisions (sliding_window false) ((login, 5) ∷ (login, 9) ∷ []) []
basic_rate_limit_window_example =
    basic_rate_limit_window false ((login, 5) ∷ (login, 9) ∷ []) (omega arith, (omega arith, tt))

abbrev bare : Headers
bare n = none

abbrev partner : RevenueStore
partner = record {
  shares = [];
  entries = [];
  policies =
      record {
        instance_domain = "b.example";
        share_basis_points = pos 500;
        is_active = true;
        created_by = "root";
      }
      ∷ [];
  next_id = 1;
}

abbrev works : Query → Bool
works q = false

partner_earns :
    (process_revenue_share works "i1" "fiat" none (some "b.example") (pos 101) partner).0
    ≡ done (some (pos 5))
unfolding process_revenue_share share_due find_share find_policy_of validate_basis_points
    calculate_share_cents wrap64 quot ◌*ℤ◌ write_share add_share with_share record_ledger_entry
    has_share
partner_earns = refl

abbrev client : String
client = "c.example"

agreed : (set_share_policy works "c.example" (pos 300) "root" partner).0 ≡ done tt
unfolding set_share_policy validate_basis_points
agreed = refl

partner-IsBooked : IsBooked partner
unfolding count_credits count_reversals
partner-IsBooked = record {
  numbered = tt;
  keyed = tt;
  once = tt;
  fresh = λ i p. (refl, refl);
  known = tt;
}

abbrev season : List Act
season =
    Act.processed works "i1" "fiat" none (some "b.example") (pos 101)
    ∷ Act.undone works "i1" "fiat" "refund"
    ∷ []

acts-IsBooked_example : IsBooked (acts season partner)
acts-IsBooked_example = acts-IsBooked season partner partner-IsBooked

abbrev night : World
night = record {
  now = 1000;
  jitter = 7;
  fails = λ q. false;
  is_domain_blocked = λ d. false;
  deliver_job = λ j. false;
}

abbrev news : Job
news = record {
  id = 1;
  activity_id = 4;
  target_inbox_url = "https://b.example/inbox";
  attempt_count = 0;
  max_attempts = 3;
  next_attempt_at = 0;
  status = JobStatus.queued;
}

-- Four polls, two hours apart.
abbrev nights : List World
nights =
    night
    ∷ record night { now = 8200 }
    ∷ record night { now = 15400 }
    ∷ record night { now = 22600 }
    ∷ []

process_polls_exhausts_example :
    ((process_polls nights news).attempt_count ≡ 3)
    × ((process_polls nights news).status ≡ JobStatus.failed)
process_polls_exhausts_example =
    process_polls_exhausts nights news
      (
        (λ q. refl, λ d. refl, λ j. refl),
        (
          (λ q. refl, λ d. refl, λ j. refl),
          ((λ q. refl, λ d. refl, λ j. refl), ((λ q. refl, λ d. refl, λ j. refl), tt)),
        ),
      )
      refl (omega arith, (omega arith, (omega arith, (omega arith, tt)))) (omega arith)
