-- ===== src/Moderation/Rules.antt =====
-- The rules on domains that the administrator's requests leave.
use ppv_stream_rust.Prelude.{
  String, ◌≡◌, ◌≢◌, refl, ◌⊎◌, Bool, true, false, Option, some, none, List, [], ◌∷◌, arith, eq_iff,
}
use ppv_stream_rust.Text.{trim}
use ppv_stream_rust.Moderation.{
  DomainRule, RuleReply, check_admin_token, find_action, domain_action, stops, is_domain_blocked,
  is_valid_action, upsert_rule, delete_rules, has_rule, set_domain_rule, delete_domain_rule,
}

find_action-upsert_rule :
    (domain action : String) (reason : Option String) (rules : List DomainRule)
    → find_action domain (upsert_rule domain action reason rules) ≡ some action
unfolding find_action upsert_rule
find_action-upsert_rule domain action reason [] = ground (arith, eq_iff domain domain)
find_action-upsert_rule domain action reason (r ∷ rs) =
    ground (arith, find_action-upsert_rule domain action reason rs)

other_kept_upsert :
    (domain action other : String) (reason : Option String) (rules : List DomainRule)
    → other ≢ domain
    → find_action other (upsert_rule domain action reason rules) ≡ find_action other rules
unfolding find_action upsert_rule
other_kept_upsert domain action other reason [] ne = ground (arith, eq_iff domain other)
other_kept_upsert domain action other reason (r ∷ rs) ne =
    let rest = other_kept_upsert domain action other reason rs ne in
    ground (arith, eq_iff r.domain domain, eq_iff r.domain other)

find_action-delete_rules :
    (domain : String) (rules : List DomainRule)
    → find_action domain (delete_rules domain rules) ≡ none
unfolding find_action delete_rules
find_action-delete_rules domain [] = refl
find_action-delete_rules domain (r ∷ rs) = ground (arith, find_action-delete_rules domain rs)

other_kept_delete :
    (domain other : String) (rules : List DomainRule)
    → other ≢ domain
    → find_action other (delete_rules domain rules) ≡ find_action other rules
unfolding find_action delete_rules
other_kept_delete domain other [] ne = refl
other_kept_delete domain other (r ∷ rs) ne =
    let rest = other_kept_delete domain other rs ne in
    ground (arith, eq_iff r.domain domain, eq_iff r.domain other)

-- A rule that is accepted is the one in force for its domain, with its spaces trimmed and in lower
-- case: if the next query does not fail, the domain is blocked exactly if the action is `block` or
-- `suspend`. It comes with the administrator's token and has one of the five actions, and for every other
-- domain the rule is as before.
pub set_domain_rule_decides :
    (lower : String → String) (expected header : Option String) (fails : Bool)
    (body action other : String) (reason : Option String) (rules rules' : List DomainRule)
    → set_domain_rule lower expected header fails body action reason rules
      ≡ (RuleReply.accepted, rules')
    → other ≢ lower (trim body)
    → (is_domain_blocked false (lower (trim body)) rules' ≡ stops (some action))
      × ((check_admin_token expected header ≡ true)
          × ((is_valid_action action ≡ true)
              × (domain_action false other rules' ≡ domain_action false other rules)))
unfolding set_domain_rule is_domain_blocked domain_action
set_domain_rule_decides lower expected header fails body action other reason rules rules' h ne =
    let now = find_action-upsert_rule (lower (trim body)) action reason rules in
    let kept = other_kept_upsert (lower (trim body)) action other reason rules ne in
    ground (arith, now, kept)

-- A request to delete the rule of a domain, with its spaces trimmed and in lower case, leaves the rule
-- of every other domain. If it is answered with success, the domain had a rule and has none now, so
-- that it is not blocked; otherwise nothing is changed.
pub delete_domain_rule_lifts :
    (lower : String → String) (expected header : Option String) (fails : Bool) (path other : String)
    (reply : RuleReply) (rules rules' : List DomainRule)
    → delete_domain_rule lower expected header fails path rules ≡ (reply, rules')
    → other ≢ lower (trim path)
    → (find_action other rules' ≡ find_action other rules)
      × (((reply ≡ RuleReply.accepted)
            × ((has_rule (lower (trim path)) rules ≡ true)
                × (is_domain_blocked false (lower (trim path)) rules' ≡ false)))
          ⊎ ((reply ≢ RuleReply.accepted) × (rules' ≡ rules)))
unfolding delete_domain_rule is_domain_blocked domain_action stops
delete_domain_rule_lifts lower expected header fails path other reply rules rules' h ne =
    let gone = find_action-delete_rules (lower (trim path)) rules in
    let kept = other_kept_delete (lower (trim path)) other rules ne in ground (arith, gone, kept)
