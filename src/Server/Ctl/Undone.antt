-- ===== src/Server/Ctl/Undone.antt =====
-- The contacts of a fixture are loaded all or none.
use emarsys_mock.Base.{◌≡◌, arith, List, Str}
use emarsys_mock.Store.Exec.{World, Exec, err}
use emarsys_mock.Store.Exec.Rules.{Atomic, Atomic-bind, reads_rules}
use emarsys_mock.Server.Contact.Atomicity.{Reads-load_field_catalog}
use emarsys_mock.Server.Json.{Json, FlexibleInt}
use emarsys_mock.Server.Ctl.Seed.{SeedError, with_seed_tx, seed_contacts}

Atomic-with_seed_tx : {A : Type 0} (fn : Exec SeedError A) → Atomic (with_seed_tx fn)
unfolding with_seed_tx
Atomic-with_seed_tx fn = record { at = λ w e q. ground arith }

Atomic-seed_contacts :
    (key : FlexibleInt) (raws : List (List (Str × Json))) → Atomic (seed_contacts key raws)
unfolding seed_contacts
Atomic-seed_contacts key raws =
    Atomic-bind _ _ (search (reads_rules, Reads-load_field_catalog))
      (λ catalog. Atomic-with_seed_tx _)

-- When the contacts of a fixture cannot all be loaded, whether a row is malformed, has no value for the
-- key field, or a call of the database fails, every table is as it was before the first of them.
pub seed_contacts-undone :
    (key : FlexibleInt) (raws : List (List (Str × Json))) (w : World) (e : SeedError)
    → (seed_contacts key raws w).0 ≡ err e
    → (seed_contacts key raws w).1.tables ≡ w.tables
seed_contacts-undone key raws w e h = (Atomic-seed_contacts key raws).at w e h
