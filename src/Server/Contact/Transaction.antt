-- ===== src/Server/Contact/Transaction.antt =====
-- Rules to prove what the transaction of a contact batch yields.
use emarsys_mock.Base.{
  ◌≡◌, ℕ, Bool, not, Option, none, some, List, [], ◌∷◌, Str, ℤ, any, str_eq, ◌&&◌, str_key,
}
use emarsys_mock.Store.Tables.{Tables}
use emarsys_mock.Store.Exec.{ok}
use emarsys_mock.Store.Exec.Rules.{Reads-lift}
use emarsys_mock.Store.Exec.Yields.{
  Yields, Yields-pure, Yields-of-Reads, Yields-bind, Yields-if, Yields-with_tx, Yields-lift,
  Yields-lift_ok, Yields-given,
}
use emarsys_mock.Store.Field.{FieldCatalog, load_field_catalog}
use emarsys_mock.Store.Contact.{Values, apply_contact_values, create_contact}
use emarsys_mock.Server.Json.{decoded, decode_json}
use emarsys_mock.Server.Common.{Settings, Yields-or_internal}
use emarsys_mock.Server.ContactValue.{ParsedRow, RowError, key_value_of}
use emarsys_mock.Server.Contact.{
  ContactBatchBody, BatchResult, Batch, store_row, checked_row, keyed_row, process_row, write_batch,
  run_contact_batch, parse_rows, check_size, resolve_key_field,
}
use emarsys_mock.Server.Contact.Atomicity.{
  Reads-load_field_catalog, Reads-check_list, Reads-find_contact_ids,
}

-- A batch that is answered with OK yields what its transaction yields on the parsed rows.
module _ (s : Settings) (is_update create : Bool) (body : ContactBatchBody) {P : Tables → Type 0}
    {Q : BatchResult → Tables → Type 0}
    (transaction : (catalog : FieldCatalog) (key : ℤ) (rows : List ParsedRow)
      → parse_rows catalog body.contacts ≡ ok rows
      → Yields P
          (write_batch s catalog is_update create key body.contact_list_id rows)
          (λ b. Q b.result)) where
  pub run_contact_batch-Yields : Yields P (run_contact_batch s is_update create (decoded body)) Q
  unfolding run_contact_batch decode_json
  run_contact_batch-Yields = Yields-lift_ok body _ (
      Yields-bind _ _
        (Yields-or_internal load_field_catalog (Yields-of-Reads Reads-load_field_catalog))
        λ catalog.
          Yields-bind _ _ (Yields-of-Reads (Reads-lift (resolve_key_field body.key_id catalog)))
            λ key. Yields-bind _ _ (Yields-of-Reads (Reads-lift (check_size s body.contacts))) λ _.
              Yields-bind _ _ (Yields-lift (parse_rows catalog body.contacts)) λ rows.
                Yields-bind _ _ (Yields-of-Reads (Reads-check_list body.contact_list_id)) λ _.
                  Yields-bind _ _ {Q = λ b. Q b.result}
                    (Yields-or_internal _
                      (Yields-with_tx _ (Yields-given (transaction catalog key rows))))
                    λ b. Yields-pure b.result (λ t h. h))

-- The rows of a batch keep what creating and updating a contact keep.
module _ {P : Tables → Type 0}
    (created : (values : Values) (source : Str) → Yields P (create_contact values source) (λ _. P))
    (updated : (id : ℕ) (values : Values) (source : Str)
      → Yields P (apply_contact_values id values source) (λ _. P)) where
  store_row-Yields :
      (is_update create : Bool) (key : ℤ) (row : ParsedRow) (key_value : Str) (b : Batch)
      (existing : List ℕ)
      → Yields P (store_row is_update create key row key_value b existing) (λ _. P)
  unfolding store_row
  store_row-Yields is_update create key row key_value b [] =
      Yields-if (is_update && not create) _ _ (λ _. Yields-pure _ (λ t h. h))
        λ _. Yields-bind _ _ (created _ _) λ id. Yields-pure _ (λ t h. h)
  store_row-Yields is_update create key row key_value b (id ∷ []) =
      Yields-if (not is_update) _ _ (λ _. Yields-pure _ (λ t h. h))
        λ _. Yields-bind _ _ (updated _ _ _) λ _. Yields-pure _ (λ t h. h)
  store_row-Yields is_update create key row key_value b (_ ∷ _ ∷ _) = Yields-pure _ (λ t h. h)

  pub process_row-Yields :
      (s : Settings) (catalog : FieldCatalog) (is_update create : Bool) (key : ℤ) (b : Batch)
      (row : ParsedRow)
      → Yields P (process_row s catalog is_update create key b row) (λ _. P)
  unfolding process_row
  process_row-Yields s catalog is_update create key b row = keyed (key_value_of key row)
    where
      checked :
          (key_value : Str) (c : Batch) (e : Option RowError)
          → Yields P (checked_row s catalog is_update create key row key_value c e) (λ _. P)
      checked key_value c none =
          unfold checked_row in
          Yields-bind _ _ (Yields-of-Reads (Reads-find_contact_ids key key_value))
            (store_row-Yields is_update create key row key_value c)
      checked key_value c (some e) = unfold checked_row in Yields-pure _ (λ t h. h)

      keyed :
          (key_value : Option Str)
          → Yields P (keyed_row s catalog is_update create key row b key_value) (λ _. P)
      keyed none = unfold keyed_row in Yields-pure _ (λ t h. h)
      keyed (some key_value) =
          unfold keyed_row in
          Yields-if (any (str_eq key_value) b.seen) _ _ (λ _. Yields-pure _ (λ t h. h))
            λ _. checked key_value _ _
