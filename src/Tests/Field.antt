-- ===== src/Tests/Field.antt =====
-- Tests of the fields.
use emarsys_mock.Base.{◌≡◌, refl, true, some, [], ◌∷◌, lit, pos, find_first}
use emarsys_mock.Store.Tables.{FieldDef}
use emarsys_mock.Store.Field.{field_row}
use emarsys_mock.Server.Field.{handle_field_delete}
use emarsys_mock.Server.Field.System.{handle_field_delete-keeps}
use emarsys_mock.Tests.{field, seeded, start}

abbrev first_name : FieldDef
unfolding lit
first_name = field (pos 1) (102 ∷ []) (lit "shorttext")

first_name-found : field_row first_name.id seeded ≡ some first_name
unfolding seeded first_name lit find_first field_row
first_name-found = refl

first_name-is_system : first_name.is_system ≡ true
unfolding first_name
first_name-is_system = refl

-- The first field is asked to be deleted.
handle_field_delete-keeps_example :
    field_row first_name.id (handle_field_delete (49 ∷ []) start).1.tables ≡ some first_name
handle_field_delete-keeps_example =
    handle_field_delete-keeps first_name (49 ∷ []) start first_name-is_system first_name-found
