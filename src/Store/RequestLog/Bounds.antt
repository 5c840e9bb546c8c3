-- ===== src/Store/RequestLog/Bounds.antt =====
-- The log stays near its maximum.
use emarsys_mock.Base.{
  ◌≡◌, ◌⊎◌, refl, inl, inr, Bool-cases, arith, ℕ, suc, ◌+◌, ◌-◌, ◌%◌, ◌≤◌, ◌<◌, Bool, true, false,
  List, [], ◌∷◌, ◌++◌, select, length, ltb, leb, ◌==◌, ℤ, pos, negsuc, if◌then◌else◌,
}
use emarsys_mock.Store.RequestLog.{
  LogEntry, RequestLog, insert_entry, is_after, minus, trim, append_request_log,
}

-- Rows with all the ids after `lo` up to `hi`, in their order.
Run : ℕ → List LogEntry → ℕ → Type 0
Run lo [] hi = lo ≡ hi
Run lo (e ∷ es) hi = (e.id ≡ lo + 1) × Run (lo + 1) es hi

length-Run : (lo hi : ℕ) (es : List LogEntry) → Run lo es hi → length es + lo ≡ hi
unfolding Run
length-Run lo hi [] h = omega (arith, h)
length-Run lo hi (e ∷ es) (_, h) = omega (arith, length-Run (lo + 1) hi es h)

append-Run :
    (lo hi : ℕ) (es : List LogEntry) (e : LogEntry)
    → Run lo es hi
    → e.id ≡ hi + 1
    → Run lo (es ++ e ∷ []) (hi + 1)
unfolding Run
append-Run lo hi [] e h k = (omega arith, omega arith)
append-Run lo hi (x ∷ es) e (i, h) k = (i, append-Run (lo + 1) hi es e h k)

lt_of : (a b : ℕ) → ltb a b ≡ true → a < b
lt_of a b h = ground arith

later :
    (lo b hi : ℕ) (es : List LogEntry)
    → lo < b
    → Run (if ltb (lo + 1) b then b else (lo + 1)) es hi
    → Run b es hi
later lo b hi es h r = elim (Bool-cases (ltb (lo + 1) b)) [
  | inl e ↦ rw (e) at r
  | inr e ↦
      let here : lo + 1 ≡ b = ground arith in
      let r' : Run (lo + 1) es hi = rw (e) at r in rw (← here) r'
]

-- What a trim leaves begins after the later of the two bounds.
select-Run :
    (lo hi b : ℕ) (es : List LogEntry)
    → Run lo es hi
    → b ≤ hi
    → Run (if ltb lo b then b else lo) (select (is_after (pos b)) es) hi
unfolding Run select
select-Run lo hi b [] h k = ground (arith, h)
select-Run lo hi b (e ∷ es) (i, h) k = elim (Bool-cases (ltb b e.id)) [
  | inl kept ↦
      let early : ltb lo b ≡ false = ground arith in
      let early' : ltb (lo + 1) b ≡ false = ground arith in
      let rest : Run (lo + 1) (select (is_after (pos b)) es) hi =
        rw (early') at (select-Run (lo + 1) hi b es h k) in
      rw (kept, early) (i, rest)
  | inr gone ↦
      let late : ltb lo b ≡ true = ground arith in
      let rest : Run b (select (is_after (pos b)) es) hi =
        later lo b hi (select (is_after (pos b)) es) (omega (arith, i, lt_of lo b late))
          (select-Run (lo + 1) hi b es h k) in
      rw (gone, late) rest
]

select-all : (n : ℕ) (es : List LogEntry) → select (is_after (negsuc n)) es ≡ es
unfolding select
select-all n [] = refl
select-all n (e ∷ es) = rw (select-all n es)

le_of : (a b : ℕ) → leb a b ≡ true → b - a + a ≡ b
le_of a b h = ground arith

gt_of : (a b : ℕ) → leb a b ≡ false → b < a
gt_of a b h = ground arith

ge_of : (a b : ℕ) → ltb a b ≡ false → b ≤ a
ge_of a b h = ground arith

zero_of : (n : ℕ) → (n == 0) ≡ true → n ≡ 0
zero_of n h = ground arith

not_zero : (n : ℕ) → (n == 0) ≡ false → ¬ (n ≡ 0)
not_zero n h = ground arith

-- The rows are those after `low`, not more than 127 above the maximum, nor fewer than it if any is gone.
record IsBounded (max : ℕ) (log : RequestLog) : Type 0 where
  pub low : ℕ
  pub run : Run low log.rows log.seq
  pub few : log.seq ≤ low + max + log.seq % 128
  pub enough : (low ≡ 0) ⊎ (low + max ≤ log.seq)

insert-IsBounded :
    (max : ℕ) (e : LogEntry) (log : RequestLog)
    → IsBounded max log
    → ((log.seq + 1) % 128 == 0) ≡ false
    → IsBounded max (insert_entry e log)
unfolding insert_entry
insert-IsBounded max e log b h = record {
  low = b.low;
  run = append-Run b.low log.seq log.rows (record e { id = log.seq + 1 }) b.run refl;
  few = few (b.few);
  enough = elim b.enough [ inl z ↦ inl z | inr m ↦ inr (omega arith) ];
}
  where
    few : log.seq ≤ b.low + max + log.seq % 128 → log.seq + 1 ≤ b.low + max + (log.seq + 1) % 128
    few f =
        let ne : ¬ ((log.seq + 1) % 128 ≡ 0) = not_zero ((log.seq + 1) % 128) h in omega (arith, ne)

trim-IsBounded :
    (max : ℕ) (e : LogEntry) (log : RequestLog)
    → IsBounded max log
    → (log.seq + 1) % 128 ≡ 0
    → IsBounded max (trim (minus (log.seq + 1) (pos max)) (insert_entry e log))
unfolding insert_entry trim
trim-IsBounded max e log b h =
    let run = append-Run b.low log.seq log.rows (record e { id = log.seq + 1 }) b.run refl in
    elim (Bool-cases (leb max (log.seq + 1))) [
      | inl full ↦
          let cut = log.seq + 1 - max in
          rw (full) (
            cut_at cut
              (select-Run b.low (log.seq + 1) cut (log.rows ++ record e { id = log.seq + 1 } ∷ [])
                run (omega arith))
              (le_of max (log.seq + 1) full) (Bool-cases (ltb b.low cut)))
      | inr room ↦
          rw
            (
              room,
              select-all (max - (log.seq + 1) - 1) (log.rows ++ record e { id = log.seq + 1 } ∷ []),
            )
            (record {
              low = b.low;
              run = run;
              few = omega (arith, gt_of max (log.seq + 1) room);
              enough = inl (small b.enough (gt_of max (log.seq + 1) room));
            })
    ]
  where
    small : (b.low ≡ 0) ⊎ (b.low + max ≤ log.seq) → log.seq + 1 < max → b.low ≡ 0
    small (inl z) g = z
    small (inr m) g = absurd (omega arith)

    cut_at :
        (cut : ℕ)
        → Run
            (if ltb b.low cut then cut else b.low)
            (select (is_after (pos cut)) (log.rows ++ record e { id = log.seq + 1 } ∷ []))
            (log.seq + 1)
        → cut + max ≡ log.seq + 1
        → (ltb b.low cut ≡ true) ⊎ (ltb b.low cut ≡ false)
        → IsBounded max (record {
          rows = select (is_after (pos cut)) (log.rows ++ record e { id = log.seq + 1 } ∷ []);
          seq = log.seq + 1;
        })
    cut_at cut run whole (inl e') = record {
      low = cut;
      run = rw (e') at run;
      few = omega arith;
      enough = inr (omega arith);
    }
    cut_at cut run whole (inr e') = record {
      low = b.low;
      run = rw (e') at run;
      few = omega (arith, ge_of b.low cut e');
      enough = elim b.enough [ inl z ↦ inl z | inr m ↦ inr (omega arith) ];
    }

append-IsBounded :
    (max : ℕ) (fails : Bool) (e : LogEntry) (log : RequestLog)
    → IsBounded (suc max) log
    → IsBounded (suc max) (append_request_log fails false e (pos (suc max)) log).1
unfolding append_request_log
append-IsBounded max true e log b = b
append-IsBounded max false e log b = elim (Bool-cases ((log.seq + 1) % 128 == 0)) [
  | inl due ↦ rw (due) (trim-IsBounded (suc max) e log b (zero_of ((log.seq + 1) % 128) due))
  | inr not_due ↦ rw (not_due) (insert-IsBounded (suc max) e log b not_due)
]

-- Entries that are appended one after the other, each with whether its INSERT fails.
unfoldable pub append_all : ℤ → List (Bool × LogEntry) → RequestLog → RequestLog
append_all max [] log = log
append_all max ((fails, e) ∷ es) log =
    append_all max es (append_request_log fails false e max log).1

append_all-IsBounded :
    (max : ℕ) (es : List (Bool × LogEntry)) (log : RequestLog)
    → IsBounded (suc max) log
    → IsBounded (suc max) (append_all (pos (suc max)) es log)
unfolding append_all
append_all-IsBounded max [] log b = b
append_all-IsBounded max ((fails, e) ∷ es) log b =
    append_all-IsBounded max es _ (append-IsBounded max fails e log b)

abbrev pub no_log : RequestLog
no_log = record { rows = []; seq = 0 }

no_log-IsBounded : (max : ℕ) → IsBounded max no_log
unfolding Run
no_log-IsBounded max = record { low = 0; run = refl; few = omega arith; enough = inl refl }

-- A log that began empty, with a maximum that is positive and no DELETE that failed, has at most 127 rows
-- more than its maximum, and at least as many as its maximum or all that were ever stored.
pub append_all-bounds :
    (max : ℕ) (es : List (Bool × LogEntry))
    → let log = append_all (pos (suc max)) es no_log in
      (length log.rows ≤ suc max + 127)
      × ((suc max ≤ length log.rows) ⊎ (length log.rows ≡ log.seq))
append_all-bounds max es =
    let b = append_all-IsBounded max es no_log (no_log-IsBounded (suc max)) in
    let size = length-Run b.low _ _ b.run in
    (
      omega (arith, size, b.few),
      elim b.enough [ inl z ↦ inr (omega (arith, size)) | inr m ↦ inl (omega (arith, size)) ],
    )
