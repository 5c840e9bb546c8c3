-- ===== src/Server/Fault/Budget.antt =====
-- The hits of a fault rule: how often it fires before it disables itself.
use emarsys_mock.Base.{
  ◌≡◌, refl, arith, ℕ, suc, zero, Bool, true, false, not, ◌||◌, some, List, [], ◌∷◌, ◌++◌, map, lit,
  has_prefix, ℤ, pos, if◌then◌else◌, ltb, take, drop, select, Bool-cases, ==_refl, lt→ltb, All, inl,
  inr,
}
use emarsys_mock.Store.Tables.{FaultRule}
use emarsys_mock.Store.Exec.{World, next, ok, ◌>>=◌, pure, query, exec}
use emarsys_mock.Store.Fault.{
  fault_rules, rules_in, consumed, consume_rows, consume_fault_hit, certain,
}
use emarsys_mock.Server.Fault.{
  Request, Verdict, pass, fire, fire_rule, skips, first_rule, rule_matches, fault_middleware,
}

-- The requests that a server is sent, one after the other.
unfoldable pub serve_all : List Request → World → List Verdict
serve_all [] w = []
serve_all (r ∷ rs) w = let (v, w') = fault_middleware r w in v ∷ serve_all rs w'

-- The database never fails, and its one rule is `rule`.
pub record Has (rule : FaultRule) (w : World) : Type 0 where
  pub only : w.tables.faults.rows ≡ rule ∷ []
  pub sound : (n : ℕ) → w.driver.fails n ≡ false

-- The request is one that the rule matches, whatever its hits.
pub record Hit (rule : FaultRule) (r : Request) : Type 0 where
  pub is_api : has_prefix r.path (lit "/api/") ≡ true
  pub matches : rule_matches rule r ≡ true

abbrev with_hits : Bool → ℤ → FaultRule → FaultRule
with_hits enabled n rule = record rule { enabled = enabled; remaining_hits = some n }

select-one :
    {A : Type 0} (p : A → Bool) (x : A) (b : Bool)
    → p x ≡ b
    → select p (x ∷ []) ≡ (if b then x ∷ [] else [])
unfolding select
select-one p x b e = rw (e)

fault_rules-Has :
    (rule : FaultRule) (w : World) (b : Bool)
    → rule.enabled ≡ b
    → Has rule w
    → fault_rules true w ≡ (ok (if b then rule ∷ [] else []), next w)
unfolding fault_rules query rules_in
fault_rules-Has rule w b e has =
    rw (
      has.sound w.calls,
      has.only,
      select-one {A = FaultRule} (λ r. not true || r.enabled) rule b e,
    )

next-Has : (rule : FaultRule) (w : World) → Has rule w → Has rule (next w)
next-Has rule w has = record { only = has.only; sound = has.sound }

fire_rule-Has :
    (rule : FaultRule) (w : World)
    → Has rule w
    → ((fire_rule rule w).0 ≡ ok (fire rule)) × Has (consumed rule.id rule) (fire_rule rule w).1
unfolding fire_rule consume_fault_hit exec consume_rows
fire_rule-Has rule w has =
    rw (has.sound w.calls) (refl, record { only = rw (has.only) refl; sound = has.sound })

first_rule-Has :
    (rule : FaultRule) (r : Request) (w : World)
    → rule.probability ≡ certain
    → rule_matches rule r ≡ true
    → first_rule r (rule ∷ []) w ≡ fire_rule rule w
unfolding first_rule skips ◌>>=◌ pure
first_rule-Has rule r w certainly matches = rw (matches, certainly)

step-Has :
    (rule : FaultRule) (r : Request) (w : World)
    → rule.enabled ≡ true
    → rule.probability ≡ certain
    → Has rule w
    → Hit rule r
    → ((fault_middleware r w).0 ≡ fire rule) × Has (consumed rule.id rule) (fault_middleware r w).1
unfolding fault_middleware
step-Has rule r w on certainly has hit =
    let (fires, has') = fire_rule-Has rule (next w) (next-Has rule w has) in
    rw
      (
        hit.is_api,
        fault_rules-Has rule w true on has,
        first_rule-Has rule r (next w) certainly hit.matches,
        fires,
      )
      (refl, has')

off-Has :
    (rule : FaultRule) (r : Request) (w : World)
    → rule.enabled ≡ false
    → Has rule w
    → ((fault_middleware r w).0 ≡ pass) × Has rule (fault_middleware r w).1
unfolding fault_middleware first_rule pure
off-Has rule r w off has = elim (Bool-cases (has_prefix r.path (lit "/api/"))) [
  | inr e ↦ rw (e) (refl, has)
  | inl e ↦ rw (e, fault_rules-Has rule w false off has) (refl, next-Has rule w has)
]

off-passes :
    (rule : FaultRule) (rs : List Request) (w : World)
    → rule.enabled ≡ false
    → Has rule w
    → serve_all rs w ≡ map (λ r. pass) rs
unfolding serve_all
off-passes rule [] w off has = refl
off-passes rule (r ∷ rs) w off has =
    let (is_pass, has') = off-Has rule r w off has in rw (is_pass, off-passes rule rs _ off has')

consumed-hits :
    (n : ℕ) (rule : FaultRule)
    → rule.remaining_hits ≡ some (pos (suc n))
    → consumed rule.id rule ≡ with_hits (if ltb 0 n then rule.enabled else false) (pos n) rule
unfolding consumed
consumed-hits zero rule h = rw (==_refl rule.id, h)
consumed-hits (suc n) rule h = rw (==_refl rule.id, h, lt→ltb 0 (suc n) (omega arith))

Hit-with_hits :
    (b : Bool) (n : ℤ) (rule : FaultRule) (rs : List Request)
    → All (Hit rule) rs
    → All (Hit (with_hits b n rule)) rs
unfolding rule_matches
Hit-with_hits b n rule [] hits = tt
Hit-with_hits b n rule (r ∷ rs) (hit, hits) =
    (record { is_api = hit.is_api; matches = hit.matches }, Hit-with_hits b n rule rs hits)

pub serve_all-budget :
    (n : ℕ) (rule : FaultRule) (rs : List Request) (w : World)
    → rule.enabled ≡ true
    → rule.probability ≡ certain
    → rule.remaining_hits ≡ some (pos (suc n))
    → Has rule w
    → All (Hit rule) rs
    → serve_all rs w ≡ map (λ r. fire rule) (take (suc n) rs) ++ map (λ r. pass) (drop (suc n) rs)
unfolding serve_all
serve_all-budget n rule [] w on certainly left has hits = refl
serve_all-budget zero rule (r ∷ rs) w on certainly left has (hit, hits) =
    let (fired, has') = step-Has rule r w on certainly has hit in
    let off : (consumed rule.id rule).enabled ≡ false = rw (consumed-hits zero rule left) refl in
    rw (fired, off-passes (consumed rule.id rule) rs _ off has')
serve_all-budget (suc n) rule (r ∷ rs) w on certainly left has (hit, hits) =
    let (fired, has') = step-Has rule r w on certainly has hit in
    let now : consumed rule.id rule ≡ with_hits rule.enabled (pos (suc n)) rule =
      rw (consumed-hits (suc n) rule left, lt→ltb 0 (suc n) (omega arith)) refl in
    let has'' : Has (with_hits rule.enabled (pos (suc n)) rule) (fault_middleware r w).1 =
      rw (← now) has' in
    rw (
      fired,
      serve_all-budget n (with_hits rule.enabled (pos (suc n)) rule) rs _ on certainly refl has''
          (Hit-with_hits rule.enabled (pos (suc n)) rule rs hits),
    )
