-- ===== src/Redis/Counters.antt =====
-- `IncrBy` of internal/protocols/redisserver/datastore.go.
use mockly.Base.{
  ℕ, ◌≡◌, sym, ap, ◌∙◌, none, some, List, [], ◌∷◌, Bytes, if◌then◌else◌, arith, codes, insert,
  text_eq, text_eq_refl,
}
use mockly.Base.Int.{ℤ, pos, wrap64, ◌+ℤ◌}
use mockly.Redis.{Value, str, Entry, DataStore, ok, live_or, Decimal, incr_by, incr_entry}
use mockly.Redis.Laws.{view, or_fresh, live_or-view, written, view-written}

incr_entry-text :
    (d : Decimal) (key v : Bytes) (delta n : ℤ) (e : Entry) (s : DataStore)
    → e.value ≡ str v
    → d.parse v ≡ some n
    → incr_entry d key delta e s ≡ (
      ok (wrap64 (n +ℤ delta)),
      insert key (record e { value = str (d.format (wrap64 (n +ℤ delta))) }) s,
    )
unfolding incr_entry
incr_entry-text d key v delta n e s text parsed = ground arith

abbrev zero_text : Value
zero_text = str (codes "0")

incr_by-written :
    (d : Decimal) (key v : Bytes) (delta n : ℤ) (now : ℕ) (s : DataStore)
    → (or_fresh zero_text (view key now s)).value ≡ str v
    → d.parse v ≡ some n
    → incr_by d key delta now s ≡ (
      ok (wrap64 (n +ℤ delta)),
      written zero_text (str (d.format (wrap64 (n +ℤ delta)))) key now s,
    )
unfolding incr_by
incr_by-written d key v delta n now s text parsed =
    ap (λ e. incr_entry d key delta e (live_or zero_text key now s).1)
      (live_or-view zero_text key now s)
    ∙ incr_entry-text d key v delta n (or_fresh zero_text (view key now s))
        (live_or zero_text key now s).1 text parsed

-- If a key holds the text of a number, or none and the text is `0`, then `INCRBY` answers the sum on 64 bits, the key then
-- holds the text of that sum with the expiry that it had, and every other key reads as before.
pub view-incr_by :
    (d : Decimal) (key v : Bytes) (delta n : ℤ) (now : ℕ) (s : DataStore)
    → (or_fresh zero_text (view key now s)).value ≡ str v
    → d.parse v ≡ some n
    → ((incr_by d key delta now s).0 ≡ ok (wrap64 (n +ℤ delta)))
      × ((j : Bytes)
          → view j now (incr_by d key delta now s).1 ≡ (
              if text_eq key j
              then some (record (or_fresh zero_text (view key now s)) {
                value = str (d.format (wrap64 (n +ℤ delta)));
              })
              else view j now s))
view-incr_by d key v delta n now s text parsed =
    let e = incr_by-written d key v delta n now s text parsed in
    (
      ap (λ r. r.0) e,
      λ j.
          ap (λ r. view j now r.1) e
          ∙ view-written zero_text (str (d.format (wrap64 (n +ℤ delta)))) key j now s,
    )

abbrev pub incr_all : Decimal → Bytes → List ℤ → ℕ → DataStore → DataStore
incr_all d key [] now s = s
incr_all d key (x ∷ xs) now s = incr_all d key xs now (incr_by d key x now s).1

-- The sum of a list of numbers on 64 bits.
abbrev pub total : ℤ → List ℤ → ℤ
total n [] = n
total n (x ∷ xs) = total (wrap64 (n +ℤ x)) xs

abbrev Holds : Decimal → Bytes → ℕ → DataStore → ℤ → Type 0
Holds d key now s n =
    ((or_fresh zero_text (view key now s)).value ≡ str (d.format n))
    × (d.parse (d.format n) ≡ some n)

value-incr_by :
    (d : Decimal) (key v : Bytes) (delta n : ℤ) (now : ℕ) (s : DataStore)
    → (or_fresh zero_text (view key now s)).value ≡ str v
    → d.parse v ≡ some n
    → (or_fresh zero_text (view key now (incr_by d key delta now s).1)).value
      ≡ str (d.format (wrap64 (n +ℤ delta)))
value-incr_by d key v delta n now s text parsed =
    let old = or_fresh zero_text (view key now s) in
    let here =
      (view-incr_by d key v delta n now s text parsed).1 key
      ∙ ap
          (λ b.
            if b
            then some (record old { value = str (d.format (wrap64 (n +ℤ delta))) })
            else view key now s)
          (text_eq_refl key) in
    ap (λ o. (or_fresh zero_text o).value) here

incr_all-Holds :
    (d : Decimal) (key : Bytes) (xs : List ℤ) (n : ℤ) (now : ℕ) (s : DataStore)
    → ((z : ℤ) → d.parse (d.format (wrap64 z)) ≡ some (wrap64 z))
    → Holds d key now s n
    → Holds d key now (incr_all d key xs now s) (total n xs)
incr_all-Holds d key [] n now s trip h = h
incr_all-Holds d key (x ∷ xs) n now s trip (text, parsed) =
    incr_all-Holds d key xs (wrap64 (n +ℤ x)) now (incr_by d key x now s).1 trip
      (value-incr_by d key (d.format n) x n now s text parsed, trip (n +ℤ x))

-- The answer to the last of any sequence of `INCRBY` on a key that holds nothing is the sum of the
-- increments on 64 bits, if the texts of numbers of 64 bits are read back and that of zero is `0`.
pub incr_by-incr_all :
    (d : Decimal) (key : Bytes) (xs : List ℤ) (x : ℤ) (now : ℕ) (s : DataStore)
    → ((z : ℤ) → d.parse (d.format (wrap64 z)) ≡ some (wrap64 z))
    → d.format (wrap64 (pos 0)) ≡ codes "0"
    → view key now s ≡ none
    → (incr_by d key x now (incr_all d key xs now s)).0
      ≡ ok (wrap64 (total (wrap64 (pos 0)) xs +ℤ x))
incr_by-incr_all d key xs x now s trip zero_digit missing =
    let start : (or_fresh zero_text (view key now s)).value ≡ str (d.format (wrap64 (pos 0))) =
      ap (λ o. (or_fresh zero_text o).value) missing ∙ ap str (sym zero_digit) in
    let (text, parsed) =
      incr_all-Holds d key xs (wrap64 (pos 0)) now s trip (start, trip (pos 0)) in
    (view-incr_by d key _ x (total (wrap64 (pos 0)) xs) now (incr_all d key xs now s) text parsed).0
