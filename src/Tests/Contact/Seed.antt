-- ===== src/Tests/Contact/Seed.antt =====
-- A fixture whose second contact cannot be loaded.
use emarsys_mock.Base.{◌≡◌, refl, false, List, [], ◌∷◌, Str, pos}
use emarsys_mock.Store.Exec.{err}
use emarsys_mock.Server.Json.{Json, str}
use emarsys_mock.Server.Ctl.Seed.{no_key, with_seed_tx, seed_contact, seed_found, seed_contacts}
use emarsys_mock.Server.Ctl.Undone.{seed_contacts-undone}
use emarsys_mock.Tests.{start}
use emarsys_mock.Tests.Contact.{contact_code}

-- The second contact has no value for field 3.
abbrev incomplete : List (List (Str × Json))
incomplete = ((51 ∷ [], str (97 ∷ [])) ∷ []) ∷ ((49 ∷ [], str (98 ∷ [])) ∷ []) ∷ []

incomplete_run :
    (seed_contacts (record { set = false; raw = []; value = pos 0 }) incomplete start).0
    ≡ err (no_key (pos 3))
unfolding contact_code seed_contacts with_seed_tx seed_contact seed_found
incomplete_run = refl

seed_contacts-undone_example :
    (seed_contacts (record { set = false; raw = []; value = pos 0 }) incomplete start).1.tables
    ≡ start.tables
seed_contacts-undone_example =
    seed_contacts-undone (record { set = false; raw = []; value = pos 0 }) incomplete start
      (no_key (pos 3)) incomplete_run
