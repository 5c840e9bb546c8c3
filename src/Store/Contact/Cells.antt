-- ===== src/Store/Contact/Cells.antt =====
-- What apply_contact_values leaves in contact_values, cell by cell.
use emarsys_mock.Base.{
  ◌≡◌, refl, ℕ, ◌==◌, Bool, true, ◌&&◌, ◌||◌, Option, none, some, List, [], ◌∷◌, Str, str_eq_iff, ℤ,
  int_eq, int_eq_iff, lookup, int_key, map, if◌then◌else◌, arith, any, sym, ap, ◌∙◌,
}
use emarsys_mock.Store.Tables.{Tables, ContactValue}
use emarsys_mock.Store.Exec.{ok, World, fold_each}
use emarsys_mock.Store.Exec.Rules.{Reads-now_string}
use emarsys_mock.Store.Exec.Yields.{
  Yields, Yields-pure, Yields-of-Reads, Yields-weaken, Yields-strengthen, Yields-if, Yields-query,
  Yields-exec, Yields-bind, Yields-fold_each,
}
use emarsys_mock.Store.Contact.Statements.{
  cell, current_value, upsert_cell, upsert_value, insert_change, touch_contact,
}
use emarsys_mock.Store.Contact.{
  Values, value_at, insert_int, sort_ints, sorted_field_ids, holds_already, write_value,
  apply_contact_values,
}

abbrev pub is_cell : ℕ → ℤ → ℕ → ℤ → Bool
is_cell contact f c g = contact == c && int_eq f g

pub cell-upsert_cell :
    (new : ContactValue) (vs : List ContactValue) (c : ℕ) (g : ℤ)
    → cell c g (upsert_cell new vs)
      ≡ (if is_cell new.contact_id new.field_id c g then some new.value else cell c g vs)
unfolding cell upsert_cell
cell-upsert_cell new [] c g = refl
cell-upsert_cell new (v ∷ vs) c g = ground (
  arith,
  cell-upsert_cell new vs c g,
  int_eq_iff v.field_id new.field_id,
  int_eq_iff v.field_id g,
  int_eq_iff new.field_id g,
)

-- The cells of the tables: what a contact has in a field.
abbrev pub cells : Tables → ℕ → ℤ → Option Str
cells t c g = cell c g t.contacts.values

pub cells-upsert_value :
    (contact : ℕ) (f : ℤ) (value now : Str) (t t' : Tables) {a : Unit {0}} (c : ℕ) (g : ℤ)
    → upsert_value contact f value now t ≡ some (a, t')
    → cells t' c g ≡ (if is_cell contact f c g then some value else cells t c g)
unfolding upsert_value
cells-upsert_value contact f value now t t' c g h = ground (
  arith,
  cell-upsert_cell (record { contact_id = contact; field_id = f; value = value; updated_at = now })
      t.contacts.values c g,
)

cells-insert_change :
    (contact : ℕ) (f : ℤ) (old : Option Str) (new now source : Str) (t t' : Tables) {a : Unit {0}}
    (c : ℕ) (g : ℤ)
    → insert_change contact f old new now source t ≡ some (a, t')
    → cells t' c g ≡ cells t c g
unfolding insert_change
cells-insert_change contact f old new now source t t' c g h = ground arith

cells-touch_contact :
    (contact : ℕ) (now : Str) (t t' : Tables) {a : Unit {0}} (c : ℕ) (g : ℤ)
    → touch_contact contact now t ≡ some (a, t')
    → cells t' c g ≡ cells t c g
unfolding touch_contact
cells-touch_contact contact now t t' c g h = ground arith

-- Sorting keeps the ids.
abbrev pub among : ℤ → List ℤ → Bool
among g fs = any (λ f. int_eq f g) fs

among-insert_int : (a g : ℤ) (bs : List ℤ) → among g (insert_int a bs) ≡ (int_eq a g || among g bs)
unfolding insert_int any
among-insert_int a g [] = refl
among-insert_int a g (b ∷ bs) = ground (arith, among-insert_int a g bs)

among-sort_ints : (g : ℤ) (as' : List ℤ) → among g (sort_ints as') ≡ among g as'
unfolding sort_ints any
among-sort_ints g [] = refl
among-sort_ints g (a ∷ as') =
    ground (arith, among-insert_int a g (sort_ints as'), among-sort_ints g as')

-- A map's keys are the ids for which it has a value.
among-keys :
    (g : ℤ) (values : Values)
    → (if among g (map (λ (p : ℤ × Str). p.0) values) then some (value_at g values) else none)
      ≡ lookup g values
unfolding any lookup value_at
among-keys g [] = refl
among-keys g ((f, v) ∷ values) = ground (arith, among-keys g values)

holds_already-eq : (o : Option Str) (v : Str) → holds_already o v ≡ true → o ≡ some v
holds_already-eq none v h = cc
holds_already-eq (some old) v h = ground (arith, str_eq_iff old v)

-- A write of some ids of a contact, over what was there.
abbrev overlay : ℕ → Values → List ℤ → ℕ → ℤ → Option Str → Option Str
overlay contact values fs c g before =
    if contact == c && among g fs then some (value_at g values) else before

module _ (contact : ℕ) (values : Values) (source : Str) (target : ℕ → ℤ → Option Str) where
  -- What is still to be written makes the cells the target.
  abbrev Remaining : List ℤ → Unit {0} → Tables → Type 0
  Remaining fs _ t = (c : ℕ) (g : ℤ) → overlay contact values fs c g (cells t c g) ≡ target c g

  Remaining-cells :
      (fs : List ℤ) (t t' : Tables)
      → ((c : ℕ) (g : ℤ) → cells t' c g ≡ cells t c g)
      → Remaining fs tt t
      → Remaining fs tt t'
  Remaining-cells fs t t' same h c g = ap (overlay contact values fs c g) (same c g) ∙ h c g

  Remaining-same :
      (f : ℤ) (fs : List ℤ) (t : Tables)
      → Remaining (f ∷ fs) tt t
      → holds_already (current_value contact f t) (value_at f values) ≡ true
      → Remaining fs tt t
  unfolding any current_value
  Remaining-same f fs t h same c g =
      ground (
        arith,
        h c g,
        holds_already-eq (cells t contact f) (value_at f values) same,
        int_eq_iff f g,
      )

  Remaining-written :
      (f : ℤ) (fs : List ℤ) (now : Str) (t t' : Tables) (a : Unit {0})
      → Remaining (f ∷ fs) tt t
      → upsert_value contact f (value_at f values) now t ≡ some (a, t')
      → Remaining fs tt t'
  unfolding any
  Remaining-written f fs now t t' a h wrote c g = ground (
    arith,
    h c g,
    cells-upsert_value contact f (value_at f values) now t t' c g wrote,
    int_eq_iff f g,
  )

  Remaining-write_value :
      (now : Str) (f : ℤ) (fs : List ℤ) (s : Unit {0})
      → Yields (Remaining (f ∷ fs) s) (write_value contact values source now s f) (Remaining fs)
  unfolding write_value
  Remaining-write_value now f fs s =
      Yields-bind _ _ (Yields-query (current_value contact f)) (λ old.
        Yields-if (holds_already old (value_at f values)) _ _
          (λ same. Yields-pure tt (λ t (h, read). Remaining-same f fs t h (rw read same)))
          (λ _.
            Yields-bind _ _ {Q = Remaining fs}
              (Yields-exec (upsert_value contact f (value_at f values) now)
                (λ t a t' (h, read) wrote. Remaining-written f fs now t t' a h wrote))
              (λ _. Yields-exec _ (λ t a t' h wrote.
                Remaining-cells fs t t'
                  (λ c g.
                    cells-insert_change contact f old (value_at f values) now source t t' c g wrote)
                  h))))

abbrev pub or_else : Option Str → Option Str → Option Str
or_else none before = before
or_else (some v) before = some v

overlay-nil :
    (contact : ℕ) (values : Values) (c : ℕ) (g : ℤ) (before : Option Str)
    → overlay contact values [] c g before ≡ before
unfolding any
overlay-nil contact values c g before = ground arith

overlay-keys :
    (contact : ℕ) (values : Values) (c : ℕ) (g : ℤ) (before : Option Str)
    → overlay contact values (sorted_field_ids values) c g before
      ≡ (if contact == c then or_else (lookup g values) before else before)
unfolding sorted_field_ids
overlay-keys contact values c g before =
    ground (arith, among-keys g values, among-sort_ints g (map (λ (p : ℤ × Str). p.0) values))

module _ (contact : ℕ) (values : Values) (source : Str) (before : ℕ → ℤ → Option Str) where
  abbrev Before : Tables → Type 0
  Before t = (c : ℕ) (g : ℤ) → cells t c g ≡ before c g

  abbrev Updated : Tables → Type 0
  Updated t =
      (c : ℕ) (g : ℤ)
      → cells t c g ≡ (if contact == c then or_else (lookup g values) (before c g) else before c g)

  cells-loop :
      (now : Str)
      → Yields Before
          (fold_each (sorted_field_ids values) tt (write_value contact values source now))
          (λ _. Updated)
  cells-loop now =
      let target =
        λ (c : ℕ) (g : ℤ). overlay contact values (sorted_field_ids values) c g (before c g) in
      Yields-weaken
        (Yields-strengthen
          (Yields-fold_each (write_value contact values source now)
            (Remaining contact values source target)
            (λ f fs s. Remaining-write_value contact values source target now f fs s)
            (sorted_field_ids values) tt)
          (λ t h c g. ap (overlay contact values (sorted_field_ids values) c g) (h c g)))
        (λ _ t h c g.
          sym (overlay-nil contact values c g (cells t c g))
          ∙ h c g
          ∙ overlay-keys contact values c g (before c g))

module _ (contact : ℕ) (source : Str) (before : ℕ → ℤ → Option Str) where
  apply-Updated :
      (values : Values)
      → Yields
          (Before contact values source before)
          (apply_contact_values contact values source)
          (λ _. Updated contact values source before)
  unfolding apply_contact_values lookup
  apply-Updated [] = Yields-pure tt (λ t h c g. ground (arith, h c g))
  apply-Updated (v ∷ vs) = Yields-bind _ _ (Yields-of-Reads Reads-now_string) (λ now.
      Yields-bind _ _ (cells-loop contact (v ∷ vs) source before now) (λ _.
        Yields-exec (touch_contact contact now)
          (λ t a t' h did c g. cells-touch_contact contact now t t' c g did ∙ h c g)))

-- When apply_contact_values returns, the contact has the given values in the fields that were
-- given, and every other cell of every contact is as it was.
pub cells-apply_contact_values :
    (contact : ℕ) (values : Values) (source : Str) (w : World) (c : ℕ) (g : ℤ)
    → (apply_contact_values contact values source w).0 ≡ ok tt
    → cells (apply_contact_values contact values source w).1.tables c g ≡ (
        if contact == c then or_else (lookup g values) (cells w.tables c g) else cells w.tables c g)
cells-apply_contact_values contact values source w c g h =
    (apply-Updated contact source (cells w.tables) values).at w tt (λ c g. refl) h c g
