-- ===== src/Moderation.antt =====
-- src/federation/moderation.rs: the administrator's token and the rules on other instances' domains
-- (migrations/040_federation_index_only.sql). `lower` stands for `str::to_lowercase`, which follows
-- the tables of Unicode.
pub mod Rules
use ppv_stream_rust.Prelude.{
  String, Bool, true, false, not, ◌||◌, Option, none, some, List, [], ◌∷◌, ◌==◌, if◌then◌else◌,
}
use ppv_stream_rust.Text.{trim, contains_char}

pub record DomainRule : Type 0 where
  pub domain : String
  pub action : String
  pub reason : Option String

pub data RuleReply : Type 0 where
  forbidden invalid_action invalid_domain rule_not_found database_error accepted : RuleReply

-- The variable FEDERATION_ADMIN_TOKEN and the header, where they are set and readable.
unfoldable pub check_admin_token : Option String → Option String → Bool
check_admin_token none header = false
check_admin_token (some expected) none = false
check_admin_token (some expected) (some t) =
    if trim expected == "" then false else t == trim expected

-- SELECT action FROM federation_domain_rules WHERE domain = $1 LIMIT 1
unfoldable pub find_action : String → List DomainRule → Option String
find_action domain [] = none
find_action domain (r ∷ rs) =
    let rest = find_action domain rs in if r.domain == domain then some r.action else rest

unfoldable pub domain_action : Bool → String → List DomainRule → Option String
domain_action fails domain rules = if fails then none else find_action domain rules

unfoldable pub stops : Option String → Bool
stops none = false
stops (some a) = a == "block" || a == "suspend"

unfoldable pub is_domain_blocked : Bool → String → List DomainRule → Bool
is_domain_blocked fails domain rules = stops (domain_action fails domain rules)

unfoldable pub is_valid_action : String → Bool
is_valid_action a =
    a == "allow" || a == "silence" || a == "reject_media" || a == "suspend" || a == "block"

-- INSERT INTO federation_domain_rules ... ON CONFLICT (domain) DO UPDATE
unfoldable pub upsert_rule : String → String → Option String → List DomainRule → List DomainRule
upsert_rule domain action reason [] =
    record { domain = domain; action = action; reason = reason } ∷ []
upsert_rule domain action reason (r ∷ rs) =
    let rest = upsert_rule domain action reason rs in
    if r.domain == domain then record r { action = action; reason = reason } ∷ rs else r ∷ rest

-- DELETE FROM federation_domain_rules WHERE domain = $1
unfoldable pub delete_rules : String → List DomainRule → List DomainRule
delete_rules domain [] = []
delete_rules domain (r ∷ rs) =
    let rest = delete_rules domain rs in if r.domain == domain then rest else r ∷ rest

-- `rows_affected() > 0`
unfoldable pub has_rule : String → List DomainRule → Bool
has_rule domain [] = false
has_rule domain (r ∷ rs) = r.domain == domain || has_rule domain rs

-- The arguments after `lower` are the variable and the header of `check_admin_token`, and whether the
-- statement fails.
unfoldable pub set_domain_rule :
    (String → String)
    → Option String
    → Option String
    → Bool
    → String
    → String
    → Option String
    → List DomainRule
    → RuleReply × List DomainRule
set_domain_rule lower expected header fails body_domain action reason rules =
    let domain = lower (trim body_domain) in
    if not (check_admin_token expected header)
    then (RuleReply.forbidden, rules)
    else if not (is_valid_action action)
    then (RuleReply.invalid_action, rules)
    else if domain == "" || contains_char domain 47 || contains_char domain 64
    then (RuleReply.invalid_domain, rules)
    else if fails
    then (RuleReply.database_error, rules)
    else (RuleReply.accepted, upsert_rule domain action reason rules)

unfoldable pub delete_domain_rule :
    (String → String)
    → Option String
    → Option String
    → Bool
    → String
    → List DomainRule
    → RuleReply × List DomainRule
delete_domain_rule lower expected header fails path_domain rules =
    let domain = lower (trim path_domain) in
    if not (check_admin_token expected header)
    then (RuleReply.forbidden, rules)
    else if fails
    then (RuleReply.database_error, rules)
    else if has_rule domain rules
    then (RuleReply.accepted, delete_rules domain rules)
    else (RuleReply.rule_not_found, rules)
