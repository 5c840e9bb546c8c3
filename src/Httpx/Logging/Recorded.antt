-- ===== src/Httpx/Logging/Recorded.antt =====
-- What a recorder holds after a handler's calls.
use emarsys_mock.Base.{
  ◌≡◌, refl, sym, ap, ◌∙◌, inl, inr, Bool-cases, arith, ℕ, zero, suc, ◌-◌, ◌≤◌, true, false, List,
  [], ◌∷◌, ◌++◌, append-nil, append_assoc, Str, take, length, ltb, ℤ, pos, if◌then◌else◌,
}
use emarsys_mock.Httpx.Logging.{
  Act, write_header, write, reply_code, auth_user, Recorder, new_recorder, status_or, act, run_acts,
}

-- The bytes that a handler wrote, in one piece.
unfoldable pub written : List Act → Str
written [] = []
written (write p ∷ acts) = p ++ written acts
written (_ ∷ acts) = written acts

-- The status of an answer: that of the first call that gives one, and 200 where a body comes first.
unfoldable pub first_status : List Act → ℤ
first_status [] = pos 200
first_status (write_header status ∷ acts) = status_or status (first_status acts)
first_status (write p ∷ acts) = pos 200
first_status (_ ∷ acts) = first_status acts

take_append : (n : ℕ) (w p : Str) → take n (w ++ p) ≡ take n w ++ take (n - length w) p
take_append zero w p = let none_left : 0 - length w ≡ 0 = omega arith in rw (none_left)
take_append (suc n) [] p = let whole : suc n - 0 ≡ suc n = omega arith in rw (whole)
take_append (suc n) (c ∷ w) p =
    let less : suc n - suc (length w) ≡ n - length w = omega arith in rw (less, take_append n w p)

take-whole : (n : ℕ) (s : Str) → length s ≤ n → take n s ≡ s
take-whole zero [] h = refl
take-whole zero (c ∷ s) h = absurd (omega arith)
take-whole (suc n) [] h = refl
take-whole (suc n) (c ∷ s) h = rw (take-whole n s (omega arith))

-- A prefix is shorter than its bound just if it is the whole text.
length-take : (n : ℕ) (s : Str) → length (take n s) ≡ (if ltb (length s) n then length s else n)
length-take zero s = ground arith
length-take (suc n) [] = ground arith
length-take (suc n) (c ∷ s) = ground (arith, length-take n s)

take_room :
    (room : ℕ) (p : Str) → take (if ltb (length p) room then length p else room) p ≡ take room p
take_room room p = elim (Bool-cases (ltb (length p) room)) [
  | inl e ↦
      rw (e, take-whole (length p) p (omega arith))
        (sym (take-whole room p (le_of (length p) room e)))
  | inr e ↦ rw (e)
]
  where
    le_of : (a b : ℕ) → ltb a b ≡ true → a ≤ b
    le_of a b h = ground arith

act-write :
    (rec : Recorder) (w p : Str)
    → rec.body ≡ take rec.limit w
    → (act (write p) rec).body ≡ take rec.limit (w ++ p)
unfolding act
act-write rec w p h =
    let size : length rec.body ≡ (if ltb (length w) rec.limit then length w else rec.limit) =
      ap length h ∙ length-take rec.limit w in
    elim (Bool-cases (ltb (length w) rec.limit)) [
      | inl room ↦
          let size' : length rec.body ≡ length w = ground arith in
          let open_yet : ltb (length rec.body) rec.limit ≡ true = rw (size') room in
          rw (open_yet, size', take_room (rec.limit - length w) p, h)
            (sym (take_append rec.limit w p))
      | inr full ↦
          let size' : length rec.body ≡ rec.limit = ground arith in
          let shut : ltb (length rec.body) rec.limit ≡ false = rw (size') (ground arith) in
          let none_left : rec.limit - length w ≡ 0 = over (length w) rec.limit full in
          rw (shut) (
            h
            ∙ sym (append-nil (take rec.limit w))
            ∙ sym (take_append rec.limit w p ∙ rw (none_left)))
    ]
  where
    over : (a b : ℕ) → ltb a b ≡ false → b - a ≡ 0
    over a b h = ground arith

run_acts-body :
    (acts : List Act) (rec : Recorder) (w : Str)
    → rec.body ≡ take rec.limit w
    → (run_acts acts rec).body ≡ take rec.limit (w ++ written acts)
unfolding run_acts written act
run_acts-body [] rec w h = rw (append-nil) h
run_acts-body (write_header status ∷ acts) rec w h =
    run_acts-body acts (act (write_header status) rec) w h
run_acts-body (write p ∷ acts) rec w h =
    run_acts-body acts (act (write p) rec) (w ++ p) (act-write rec w p h)
    ∙ ap (take rec.limit) (append_assoc w p (written acts))
run_acts-body (reply_code code ∷ acts) rec w h = run_acts-body acts (act (reply_code code) rec) w h
run_acts-body (auth_user user ∷ acts) rec w h = run_acts-body acts (act (auth_user user) rec) w h

run_acts-status :
    (acts : List Act) (rec : Recorder)
    → status_or (run_acts acts rec).status (pos 200) ≡ status_or rec.status (first_status acts)
unfolding run_acts first_status act
run_acts-status [] rec = refl
run_acts-status (write_header status ∷ acts) rec =
    run_acts-status acts (act (write_header status) rec) ∙ ground arith
run_acts-status (write p ∷ acts) rec = run_acts-status acts (act (write p) rec) ∙ ground arith
run_acts-status (reply_code code ∷ acts) rec = run_acts-status acts (act (reply_code code) rec)
run_acts-status (auth_user user ∷ acts) rec = run_acts-status acts (act (auth_user user) rec)

-- However a handler cuts its answer into pieces, the recorded body is the first `limit` bytes of all that
-- it wrote, and the recorded status the first that it gave, or 200 where it gave none before its body.
pub run_acts-recorded :
    (limit : ℕ) (acts : List Act)
    → ((run_acts acts (new_recorder limit)).body ≡ take limit (written acts))
      × (status_or (run_acts acts (new_recorder limit)).status (pos 200) ≡ first_status acts)
run_acts-recorded limit acts = (
  run_acts-body acts (new_recorder limit) [] (empty limit),
  run_acts-status acts (new_recorder limit),
)
  where
    empty : (n : ℕ) → [] ≡ take {A = ℕ} n []
    empty zero = refl
    empty (suc n) = refl
