-- ===== src/Store/Fault.antt =====
-- internal/store/fault.go: the fault rules.
use emarsys_mock.Base.{
  ℕ, ◌+◌, ◌^◌, Bool, true, false, not, ◌||◌, Option, none, some, List, [], ◌∷◌, ◌++◌, map, Str, lit,
  is_empty, ℤ, pos, negsuc, int_eq, if◌then◌else◌, any, select, is_positive, ◌==◌, suc, zero,
}
use emarsys_mock.Store.Tables.{Tables, FaultRule}
use emarsys_mock.Store.Exec.{Err, no_fault_rule, Exec, ◌>>=◌, pure, raise, query, exec, now_string}

-- SELECT ... FROM fault_rules [WHERE enabled = 1] ORDER BY id: rows go in by growing id.
unfoldable pub rules_in : Bool → Tables → List FaultRule
rules_in only_enabled t = select (λ r. not only_enabled || r.enabled) t.faults.rows

unfoldable pub fault_rules : Bool → Exec Err (List FaultRule)
fault_rules only_enabled = query (rules_in only_enabled)

-- A probability of 1, in units of 2 ^ -53; 0 stands for the values that are not positive.
abbrev pub certain : ℕ
certain = 2 ^ 53

abbrev nonzero_or : ℤ → ℤ → ℤ
nonzero_or default v = if int_eq v (pos 0) then default else v

abbrev retry_default : Option ℤ → ℤ → Option ℤ
retry_default (some seconds) status = some seconds
retry_default none status =
    if int_eq status (pos 429) || int_eq status (pos 503) then some (pos 60) else none

-- The defaults that CreateFaultRule fills in.
unfoldable pub with_defaults : FaultRule → FaultRule
with_defaults r =
    let status = nonzero_or (pos 500) r.http_status in
    record r {
      http_status = status;
      reply_code = nonzero_or (pos 2011) r.reply_code;
      reply_text = if is_empty r.reply_text then lit "Internal error" else r.reply_text;
      probability = if r.probability == 0 then certain else r.probability;
      retry_after = retry_default r.retry_after status;
    }

-- INSERT INTO fault_rules, enabled
unfoldable pub insert_fault_rule : FaultRule → Str → Tables → Option (FaultRule × Tables)
insert_fault_rule r now t =
    let id = t.faults.seq + 1 in
    let row = record r { id = id; enabled = true; created_at = now } in
    some (row, record t { faults = record { rows = t.faults.rows ++ row ∷ []; seq = id } })

-- CreateFaultRule; the record that it returns keeps the created_at of its argument.
unfoldable pub create_fault_rule : FaultRule → Exec Err FaultRule
create_fault_rule r = do
  now ← now_string
  row ← exec (insert_fault_rule (with_defaults r) now)
  pure (record row { created_at = r.created_at })

abbrev has_rule : ℤ → Tables → Bool
has_rule id t = any (λ r. int_eq (pos r.id) id) t.faults.rows

unfoldable pub delete_rule_row : ℤ → Tables → Option (Bool × Tables)
delete_rule_row id t = some (
  has_rule id t,
  record t {
    faults = record t.faults { rows = select (λ r. not (int_eq (pos r.id) id)) t.faults.rows };
  },
)

unfoldable pub delete_fault_rule : ℤ → Exec Err (Unit {0})
delete_fault_rule id = do
  hit ← exec (delete_rule_row id)
  if hit then pure tt else raise no_fault_rule

abbrev with_enabled : ℤ → Bool → FaultRule → FaultRule
with_enabled id enabled r = if int_eq (pos r.id) id then record r { enabled = enabled } else r

unfoldable pub update_enabled : ℤ → Bool → Tables → Option (Bool × Tables)
update_enabled id enabled t = some (
  has_rule id t,
  record t { faults = record t.faults { rows = map (with_enabled id enabled) t.faults.rows } },
)

unfoldable pub set_fault_rule_enabled : ℤ → Bool → Exec Err (Unit {0})
set_fault_rule_enabled id enabled = do
  hit ← exec (update_enabled id enabled)
  if hit then pure tt else raise no_fault_rule

-- n - 1
abbrev pub less_one : ℤ → ℤ
less_one (pos zero) = negsuc 0
less_one (pos (suc n)) = pos n
less_one (negsuc n) = negsuc (suc n)

abbrev pub spent : FaultRule → Option ℤ → FaultRule
spent r none = r
spent r (some n) = record r {
  remaining_hits = some (less_one n);
  enabled = if is_positive (less_one n) then r.enabled else false;
}

-- The UPDATE of ConsumeFaultHit, on one row.
unfoldable pub consumed : ℕ → FaultRule → FaultRule
consumed id r = if r.id == id then spent r r.remaining_hits else r

unfoldable pub consume_rows : ℕ → Tables → Option (Unit {0} × Tables)
consume_rows id t =
    some (tt, record t { faults = record t.faults { rows = map (consumed id) t.faults.rows } })

unfoldable pub consume_fault_hit : ℕ → Exec Err (Unit {0})
consume_fault_hit id = exec (consume_rows id)
