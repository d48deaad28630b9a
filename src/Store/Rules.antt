-- ===== src/Store/Rules.antt =====
-- internal/store/pg_rule.go: rules and the log of their changes.
use device_telemetry_ro.Prelude.{
  leb, if◌then◌else◌, keep, find, ℕ, suc, Bool, true, false, not, Option, none, some, List, [], ◌∷◌,
  ◌++◌,
}
use device_telemetry_ro.Prelude.Bytes.{Bytes, eqb}
use device_telemetry_ro.Domain.{Time, Matcher, RouteRule, RouteRuleChangeLog}
use device_telemetry_ro.Domain.Errors.{Result, ok}
use device_telemetry_ro.Router.{sort_rules}
use device_telemetry_ro.Db.{Tables, Exec, query, update, insert}
use device_telemetry_ro.Store.{duplicate_key, foreign_key, unless, has_rule, change_where}

abbrev without_empty : Option (List Bytes) → Option (List Bytes)
without_empty none = none
without_empty (some []) = none
without_empty (some (m ∷ ms)) = some (m ∷ ms)

-- What `json.Marshal` and `json.Unmarshal` make of a matcher: `metrics` is omitted when empty.
unfoldable pub stored_matcher : Matcher → Matcher
stored_matcher m = record m { metrics = without_empty m.metrics }

unfoldable pub rule_row : RouteRule → ℕ → Tables → Result Tables
unfolding duplicate_key
rule_row r id t = unless (has_rule r.rule_id t) duplicate_key (
    ok (record t {
      rules =
          t.rules
          ++ record r { id = id; matcher = stored_matcher r.matcher; deleted_at = none } ∷ [];
    }))

unfoldable pub create_rule : RouteRule → Exec ℕ
create_rule r = insert (λ s. (record s { rule_seq = suc s.rule_seq }, suc s.rule_seq)) (rule_row r)

-- It finds deleted rules too.
unfoldable pub get_rule : Bytes → Exec (Option RouteRule)
get_rule id = query (λ t. find (λ r. eqb r.rule_id id) t.rules)

unfoldable pub update_rule : RouteRule → Exec (Unit {0})
update_rule r = update (λ t. record t {
  rules =
      change_where (λ x. eqb x.rule_id r.rule_id)
        (λ x. record x {
          name = r.name;
          matcher = stored_matcher r.matcher;
          topic = r.topic;
          priority = r.priority;
          enabled = r.enabled;
          updated_at = r.updated_at;
        })
        t.rules;
})

unfoldable pub soft_delete : Bytes → Time → Exec (Unit {0})
soft_delete id at = update (λ t. record t {
  rules =
      change_where (λ r. eqb r.rule_id id)
        (λ r. record r { deleted_at = some at; enabled = false; updated_at = at }) t.rules;
})

abbrev pub is_live : RouteRule → Bool
is_live r = elim r.deleted_at [ none ↦ true | some t ↦ false ]

-- ORDER BY priority DESC, rule_id: the order of `Router.before`
unfoldable pub list_rules : Bool → Exec (List RouteRule)
list_rules include_deleted =
    query (λ t. sort_rules (if include_deleted then t.rules else keep is_live t.rules))

-- the rows of `changeLog`, ORDER BY changed_at DESC
unfoldable pub insert_change :
    RouteRuleChangeLog → List RouteRuleChangeLog → List RouteRuleChangeLog
insert_change c [] = c ∷ []
insert_change c (x ∷ xs) =
    let rest = insert_change c xs in if leb c.changed_at x.changed_at then x ∷ rest else c ∷ x ∷ xs

unfoldable pub sort_changes : List RouteRuleChangeLog → List RouteRuleChangeLog
unfolding insert_change
sort_changes [] = []
sort_changes (c ∷ cs) = insert_change c (sort_changes cs)

unfoldable pub change_log : Bytes → Exec (List RouteRuleChangeLog)
change_log id = query (λ t. sort_changes (keep (λ c. eqb c.rule_id id) t.changes))

unfoldable pub change_row : RouteRuleChangeLog → ℕ → Tables → Result Tables
unfolding foreign_key
change_row c id t =
    unless (not (has_rule c.rule_id t)) foreign_key
      (ok (record t { changes = t.changes ++ record c { id = id } ∷ [] }))

unfoldable pub append_change : RouteRuleChangeLog → Exec ℕ
append_change c =
    insert (λ s. (record s { change_seq = suc s.change_seq }, suc s.change_seq)) (change_row c)
