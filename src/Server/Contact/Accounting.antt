-- ===== src/Server/Contact/Accounting.antt =====
-- A contact batch accounts for every row of the request.
use emarsys_mock.Base.{
  ◌≡◌, refl, ℕ, suc, ◌+◌, ◌≤◌, Bool, not, Option, none, some, List, [], ◌∷◌, Str, ℤ, length,
  length-append, put, any, str_eq, ◌&&◌, str_key, arith, sym, ◌∙◌, ◌↔◌, List-cases, ◌⊎◌, ◌≢◌, inl,
  inr,
}
use emarsys_mock.Api.{Failure, ReplyCode}
use emarsys_mock.Store.Tables.{Tables}
use emarsys_mock.Store.Exec.{Result, ok, err, World, fold_each}
use emarsys_mock.Store.Exec.Yields.{
  Yields, Yields-pure, Yields-weaken, Yields-strengthen, Yields-premise, Yields-bind, Yields-if,
  Yields-fold_each, Yields-anything,
}
use emarsys_mock.Store.Field.{FieldCatalog}
use emarsys_mock.Server.Json.{Json, decoded}
use emarsys_mock.Server.Common.{Settings}
use emarsys_mock.Server.ContactValue.{ParsedRow, RowError, key_value_of, parse_row}
use emarsys_mock.Server.Contact.{
  ContactBatchBody, BatchResult, Batch, new_batch, fail_row, store_row, checked_row, keyed_row,
  process_row, write_batch, run_contact_batch, parse_rows, row_then,
}
use emarsys_mock.Server.Contact.Transaction.{run_contact_batch-Yields}

abbrev Anything : Tables → Type 0
Anything t = Unit {0}

-- What a row does to the result: one id more, or an error and no id.
abbrev Stepped : Batch → Batch → Type 0
Stepped b c =
    ((length c.result.ids ≡ length b.result.ids + 1) × (c.result.errors ≡ b.result.errors))
    ⊎ ((length c.result.ids ≡ length b.result.ids) × (c.result.errors ≢ []))

put-ne-nil : (k : Str) (v : ReplyCode × Str) (m : List (Str × (ReplyCode × Str))) → put k v m ≢ []
unfolding put
put-ne-nil k v [] e = cc
put-ne-nil k v ((j, w) ∷ m) e = ground arith

fail_row-Stepped :
    (k : Str) (code : ReplyCode) (text : Str) (b : Batch) → Stepped b (fail_row k code text b)
unfolding fail_row
fail_row-Stepped k code text b = inr (refl, put-ne-nil k (code, text) b.result.errors)

module _ (s : Settings) (catalog : FieldCatalog) (is_update create : Bool) (key : ℤ)
    (row : ParsedRow) where
  store_row-Stepped :
      (key_value : Str) (b : Batch) (existing : List ℕ)
      → Yields Anything
          (store_row is_update create key row key_value b existing)
          (λ c _. Stepped b c)
  unfolding store_row
  store_row-Stepped key_value b [] =
      Yields-if (is_update && not create) _ _ (λ _. Yields-pure _ (λ t _. fail_row-Stepped _ _ _ b))
        λ _.
          Yields-bind _ _ (Yields-anything _)
            λ id. Yields-pure _ (λ t _. inl (length-append b.result.ids _, refl))
  store_row-Stepped key_value b (id ∷ []) =
      Yields-if (not is_update) _ _ (λ _. Yields-pure _ (λ t _. fail_row-Stepped _ _ _ b))
        λ _.
          Yields-bind _ _ (Yields-anything _)
            λ _. Yields-pure _ (λ t _. inl (length-append b.result.ids _, refl))
  store_row-Stepped key_value b (_ ∷ _ ∷ _) = Yields-pure _ (λ t _. fail_row-Stepped _ _ _ b)

  checked_row-Stepped :
      (key_value : Str) (b : Batch) (e : Option RowError)
      → Yields Anything
          (checked_row s catalog is_update create key row key_value b e)
          (λ c _. Stepped b c)
  unfolding checked_row
  checked_row-Stepped key_value b none =
      Yields-bind _ _ (Yields-anything _) (store_row-Stepped key_value b)
  checked_row-Stepped key_value b (some e) = Yields-pure _ (λ t _. fail_row-Stepped _ _ _ b)

  keyed_row-Stepped :
      (b : Batch) (key_value : Option Str)
      → Yields Anything
          (keyed_row s catalog is_update create key row b key_value)
          (λ c _. Stepped b c)
  unfolding keyed_row
  keyed_row-Stepped b none = Yields-pure _ (λ t _. fail_row-Stepped _ _ _ b)
  keyed_row-Stepped b (some key_value) =
      Yields-if (any (str_eq key_value) b.seen) _ _
        (λ _. Yields-pure _ (λ t _. fail_row-Stepped _ _ _ b))
        λ _. checked_row-Stepped key_value _ _

  process_row-Stepped :
      (b : Batch)
      → Yields Anything (process_row s catalog is_update create key b row) (λ c _. Stepped b c)
  unfolding process_row
  process_row-Stepped b = keyed_row-Stepped b (key_value_of key row)

-- `n` rows in all, `left` of them still to come.
record IsAccounted (n left : ℕ) (b : Batch) : Type 0 where
  bounded : length b.result.ids + left ≤ n
  clean : b.result.errors ≡ [] → length b.result.ids + left ≡ n
  failed : b.result.errors ≢ [] → length b.result.ids + left + 1 ≤ n

Stepped-IsAccounted :
    (n left : ℕ) (b c : Batch) → IsAccounted n (suc left) b → Stepped b c → IsAccounted n left c
Stepped-IsAccounted n left b c h (inl (more, same)) = record {
  bounded = omega (arith, h.bounded);
  clean = λ e. omega (arith, more, h.clean (sym same ∙ e));
  failed = λ e. omega (arith, more, h.failed (λ none_yet. e (same ∙ none_yet)));
}
Stepped-IsAccounted n left b c h (inr (same, bad)) = record {
  bounded = omega (arith, h.bounded);
  clean = λ e. absurd (bad e);
  failed = λ e. omega (arith, h.bounded);
}

module _ (s : Settings) (catalog : FieldCatalog) (is_update create : Bool) (key : ℤ) where
  rows-IsAccounted :
      (n : ℕ) (rows : List ParsedRow) (b : Batch)
      → IsAccounted n (length rows) b
      → Yields Anything
          (fold_each rows b (process_row s catalog is_update create key))
          (λ c _. IsAccounted n 0 c)
  rows-IsAccounted n rows b h =
      Yields-weaken
        (Yields-strengthen
          (Yields-fold_each (process_row s catalog is_update create key)
            (λ left c _. IsAccounted n (length left) c)
            (λ row left c. Yields-premise λ known.
              Yields-weaken (process_row-Stepped s catalog is_update create key row c)
                (λ d _ step. Stepped-IsAccounted n (length left) c d known step))
            rows b)
          (λ t _. h))
        (λ c t k. k)

  write_batch-IsAccounted :
      (list : Option ℤ) (rows : List ParsedRow)
      → Yields Anything
          (write_batch s catalog is_update create key list rows)
          (λ c _. IsAccounted (length rows) 0 c)
  unfolding write_batch
  write_batch-IsAccounted list rows =
      Yields-bind _ _
        (rows-IsAccounted (length rows) rows new_batch (record {
          bounded = omega arith;
          clean = λ e. omega arith;
          failed = λ e. absurd (e refl);
        }))
        λ b.
          Yields-premise
            λ done. Yields-bind _ _ (Yields-anything _) λ _. Yields-pure b (λ t _. done)

row_then-eq-ok :
    (r : Result RowError ParsedRow) (rest : Result Failure (List ParsedRow)) (rows : List ParsedRow)
    → row_then r rest ≡ ok rows
    → (more : List ParsedRow) × (rest ≡ ok more) × (length rows ≡ length more + 1)
row_then-eq-ok (err e) rest rows h = cc
row_then-eq-ok (ok row) (err f) rows h = cc
row_then-eq-ok (ok row) (ok more) rows h = (more, refl, ground arith)

length-parse_rows :
    (catalog : FieldCatalog) (raws : List (List (Str × Json))) (rows : List ParsedRow)
    → parse_rows catalog raws ≡ ok rows
    → length rows ≡ length raws
unfolding parse_rows
length-parse_rows catalog [] rows h = ground arith
length-parse_rows catalog (raw ∷ raws) rows h =
    let (more, rest, count) =
      row_then-eq-ok (parse_row catalog raw) (parse_rows catalog raws) rows h in
    omega (arith, count, length-parse_rows catalog raws more rest)

IsAccounted-all :
    (n : ℕ) (b : Batch)
    → IsAccounted n 0 b
    → (length b.result.ids ≤ n) × ((b.result.errors ≡ []) ↔ (length b.result.ids ≡ n))
IsAccounted-all n b h = (
  omega (arith, h.bounded),
  (
    λ e. omega (arith, h.clean e),
    λ e. elim (List-cases b.result.errors) [
      | inl none_failed ↦ none_failed
      | inr (x, xs, some_failed) ↦
          absurd (omega (arith, e, h.failed (λ q. nil-ne-cons x xs (sym q ∙ some_failed))))
    ],
  ),
)
  where
    nil-ne-cons : (x : Str × (ReplyCode × Str)) (xs : List (Str × (ReplyCode × Str))) → [] ≢ x ∷ xs
    nil-ne-cons x xs q = cc

-- The reply of a batch that is answered with OK: there is an id for each row that did not fail, so
-- there are at most as many ids as rows, and exactly as many just if data.errors is empty.
pub run_contact_batch-accounts :
    (s : Settings) (is_update create : Bool) (body : ContactBatchBody) (w : World) (r : BatchResult)
    → (run_contact_batch s is_update create (decoded body) w).0 ≡ ok r
    → (length r.ids ≤ length body.contacts)
      × ((r.errors ≡ []) ↔ (length r.ids ≡ length body.contacts))
run_contact_batch-accounts s is_update create body w r h =
    let n = length body.contacts in
    let k =
      (run_contact_batch-Yields s is_update create body {P = Anything}
          {Q = λ r _. (length r.ids ≤ n) × ((r.errors ≡ []) ↔ (length r.ids ≡ n))}
          λ catalog key rows parsed.
            Yields-weaken
              (write_batch-IsAccounted s catalog is_update create key body.contact_list_id rows)
              λ c t done.
                rw (← length-parse_rows catalog body.contacts rows parsed)
                  (IsAccounted-all (length rows) c done)).at
        w r tt h in
    k
