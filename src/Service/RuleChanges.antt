-- ===== src/Service/RuleChanges.antt =====
-- internal/service/rules.go: the rules of routing, each change with an entry in the log.
use device_telemetry_ro.Prelude.{
  if◌then◌else◌, ℕ, Bool, true, false, not, ◌&&◌, Option, none, some, [],
}
use device_telemetry_ro.Prelude.Int.{ℤ}
use device_telemetry_ro.Prelude.Bytes.{Bytes, codes, eqb}
use device_telemetry_ro.Domain.{
  Time, Matcher, RouteRule, ChangeAction, action_create, action_update, action_disable,
  action_enable, action_delete, RouteRuleChangeLog,
}
use device_telemetry_ro.Domain.Errors.{
  err_invalid_field, err_rule_conflict, err_rule_not_found, field, Error, with_details,
}
use device_telemetry_ro.External.{External}
use device_telemetry_ro.Db.{◌>>=◌, ◌>>◌, Exec, pure, throw, catch, updated, in_tx}
use device_telemetry_ro.Store.Rules.{create_rule, get_rule, update_rule, soft_delete, append_change}
use device_telemetry_ro.Service.{plain, or_throw, require, operator_from, is_unique_violation}

pub record RuleInput : Type 0 where
  pub rule_id : Bytes
  pub name : Bytes
  pub matcher : Matcher
  pub topic : Bytes
  pub priority : ℤ
  pub enabled : Bool

abbrev or_else : Bytes → Bytes → Bytes
or_else new old = if eqb new [] then old else new

-- `reflect.DeepEqual(m, domain.Matcher{})`
abbrev is_zero_matcher : Matcher → Bool
is_zero_matcher m =
    eqb m.device_pattern [] && (elim m.metrics [ none ↦ true | some ms ↦ false ]) && eqb m.expr []

abbrev is_missing : Option RouteRule → Bool
is_missing none = true
is_missing (some r) = elim r.deleted_at [ none ↦ false | some t ↦ true ]

-- the rule that `UpdateRule` and `DeleteRule` change
unfoldable pub live_rule : Bytes → Exec RouteRule
live_rule rule_id = do
  existing ← get_rule rule_id
  require (not (is_missing existing)) (plain err_rule_not_found)
  or_throw existing (plain err_rule_not_found)

unfoldable pub merged : RouteRule → RuleInput → Time → RouteRule
merged existing input now = record existing {
  name = or_else input.name existing.name;
  topic = or_else input.topic existing.topic;
  matcher = if is_zero_matcher input.matcher then existing.matcher else input.matcher;
  priority = input.priority;
  enabled = input.enabled;
  updated_at = now;
}

unfoldable pub action_of : RouteRule → RouteRule → ChangeAction
action_of existing updated =
    if not existing.enabled && updated.enabled
    then action_enable
    else if existing.enabled && not updated.enabled
    then action_disable
    else action_update

module _ (ext : External) where
  unfoldable pub new_rule : Time → Bytes → RuleInput → RouteRule
  new_rule now fresh input = record {
    id = 0;
    rule_id = or_else input.rule_id fresh;
    name = input.name;
    matcher = input.matcher;
    topic = input.topic;
    priority = input.priority;
    enabled = input.enabled;
    deleted_at = none;
    created_at = now;
    updated_at = now;
  }

  abbrev change :
      Bytes → ChangeAction → Option RouteRule → RouteRule → Option Bytes → Time → RouteRuleChangeLog
  change rule_id action before_ after operator now = record {
    id = 0;
    rule_id = rule_id;
    action = action;
    before_json = elim before_ [ none ↦ none | some r ↦ some (ext.marshal_rule r) ];
    after_json = some (ext.marshal_rule after);
    operator = operator_from operator;
    changed_at = now;
  }

  -- the change of the row and the entry of the log, in one transaction
  abbrev logged {ℓ} : {A : Type ℓ} → Exec A → RouteRuleChangeLog → Exec ℕ
  logged write entry = in_tx (write >>= λ _. append_change entry)

  abbrev rule_error : Error → Exec ℕ
  rule_error e = if is_unique_violation ext e then throw (plain err_rule_conflict) else throw e

  -- `CreateRule`
  unfoldable pub add_rule : Time → Bytes → Option Bytes → RuleInput → Exec RouteRule
  add_rule now fresh operator input = do
    require (not (eqb input.name [])) (with_details err_invalid_field (field (codes "name")))
    require (not (eqb input.topic [])) (with_details err_invalid_field (field (codes "topic")))
    let r = new_rule now fresh input
    existing ← get_rule r.rule_id
    require (elim existing [ none ↦ true | some x ↦ false ]) (plain err_rule_conflict)
    _ ←
        catch (logged (create_rule r) (change r.rule_id action_create none r operator now))
          rule_error
    pure r

  -- `Service.UpdateRule`
  unfoldable pub change_rule : Time → Option Bytes → Bytes → RuleInput → Exec RouteRule
  change_rule now operator rule_id input = do
    existing ← live_rule rule_id
    let updated = merged existing input now
    _ ←
        logged (update_rule updated)
          (change rule_id (action_of existing updated) (some existing) updated operator now)
    pure updated

  -- `DeleteRule`
  unfoldable pub delete_rule : Time → Option Bytes → Bytes → Exec (Unit {0})
  delete_rule now operator rule_id = do
    existing ← live_rule rule_id
    let after = record existing { enabled = false; deleted_at = some now; updated_at = now }
    _ ←
        logged (soft_delete rule_id now)
          (change rule_id action_delete (some existing) after operator now)
    pure tt

-- `Service.GetRule`
unfoldable pub find_rule : Bytes → Exec RouteRule
find_rule rule_id = get_rule rule_id >>= λ found. or_throw found (plain err_rule_not_found)
