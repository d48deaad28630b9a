-- ===== src/Store/Audit.antt =====
-- internal/store/pg_audit.go: the log of authentication attempts, and the counts of rows.
use device_telemetry_ro.Prelude.{
  leb, if◌then◌else◌, length, take, ℕ, suc, Bool, List, [], ◌∷◌, ◌++◌,
}
use device_telemetry_ro.Prelude.Int.{ℤ, pos, pos_part, leb_ℤ}
use device_telemetry_ro.Prelude.Sort.{sort_by}
use device_telemetry_ro.Domain.{ApiKeyAudit}
use device_telemetry_ro.Domain.Errors.{Result, ok}
use device_telemetry_ro.Db.{Tables, Exec, query, insert}

unfoldable pub audit_row : ApiKeyAudit → ℕ → Tables → Result Tables
audit_row a id t = ok (record t { audits = t.audits ++ record a { id = id } ∷ [] })

-- `recordAudit`, with the columns as a record
unfoldable pub record_audit : ApiKeyAudit → Exec ℕ
record_audit a =
    insert (λ s. (record s { audit_seq = suc s.audit_seq }, suc s.audit_seq)) (audit_row a)

-- ORDER BY at DESC
abbrev later_audit : ApiKeyAudit → ApiKeyAudit → Bool
later_audit a b = leb b.at a.at

-- `listAudit`
unfoldable pub list_audit : ℤ → Exec (List ApiKeyAudit)
list_audit limit =
    query (λ t.
      take (if leb_ℤ limit (pos 0) then 50 else pos_part limit) (sort_by later_audit t.audits))

-- `countRows` of the two tables
unfoldable pub device_count : Exec ℕ
device_count = query (λ t. length t.devices)

unfoldable pub event_count : Exec ℕ
event_count = query (λ t. length t.events)
