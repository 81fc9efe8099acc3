-- ===== src/Messages/Ring.antt =====
-- The `MessageStore` of internal/protocols/mqttserver/server.go and natsserver/server.go.
use Prim.Native.Nat.{◌%◌}
use native.Mathlib.Nat.{mod-lt, mod-add-mod, mod-eq_of_lt, mod-eq-sub-mod}
use mathlib.Core.Path.{subst}
use mockly.Base.{
  ℕ, zero, suc, ◌+◌, ◌-◌, ◌≤◌, ◌<◌, ◌≡◌, ◌≢◌, refl, sym, ap, ◌∙◌, true, false, some, List, [], ◌∷◌,
  ◌++◌, arith, ltb, ◌==◌, if◌then◌else◌, ◌>>=◌, length, length-append, drop, get_elem?, const_list,
  length-const_list, Bool-cases, inl, inr,
}
use mockly.Base.Int.{ℤ}
use mockly.Messages.{
  Call, adds, clears, RingStore, size_of, set_elem, new_ring, advance, add, read_from, all, clear,
  run_ring, last, since_clear,
}
use mockly.Messages.Slice.{keep, keep-last, last-short, size_of-pos}

-- An index of the buffer wraps at most once.
wrapped : (n h i : ℕ) → h < n → i ≤ n → (h + i) % n ≡ (if ltb (h + i) n then h + i else (h + i - n))
wrapped n h i p q = elim (Bool-cases (ltb (h + i) n)) [
  | inl e ↦ rw e (mod-eq_of_lt (ground arith))
  | inr e ↦ rw e (mod-eq-sub-mod (ground arith) ∙ mod-eq_of_lt (ground arith))
]

-- Two places of the ring less than its size apart are different.
apart : (n h i j : ℕ) → h < n → i < j → j ≤ n → j < n + i → (h + i) % n ≢ (h + j) % n
apart n h i j p q r t = ground (arith, wrapped n h i, wrapped n h j)

-- The place after the last of a full ring is the first.
around : (n h i : ℕ) → ((h + 1) % n + i) % n ≡ (h + suc i) % n
around n h i = mod-add-mod (h + 1) n i ∙ ap (λ k. k % n) sum
  where
    sum : h + 1 + i ≡ h + suc i
    sum = omega arith

add_zero : (i : ℕ) → i ≡ i + 0
add_zero i = omega arith

zero_add : (i : ℕ) → 0 + i ≡ i
zero_add i = omega arith

add_suc : (i j : ℕ) → suc i + j ≡ i + suc j
add_suc i j = omega arith

module _ {ℓ} {A : Type ℓ} where
  get_elem?-last : (xs : List A) (x : A) → get_elem? (xs ++ x ∷ []) (length xs) ≡ some x
  get_elem?-last [] x = refl
  get_elem?-last (y ∷ xs) x = get_elem?-last xs x

  get_elem?-front :
      (xs ys : List A) (i : ℕ) → i < length xs → get_elem? (xs ++ ys) i ≡ get_elem? xs i
  get_elem?-front [] ys i h = ground arith
  get_elem?-front (x ∷ xs) ys zero h = refl
  get_elem?-front (x ∷ xs) ys (suc i) h = get_elem?-front xs ys i (omega (arith, h))

  -- The list after a write within it.
  abbrev put : List A → ℕ → A → List A
  put [] i x = []
  put (y ∷ ys) zero x = x ∷ ys
  put (y ∷ ys) (suc i) x = y ∷ put ys i x

  set_elem-put : (xs : List A) (i : ℕ) (x : A) → i < length xs → set_elem xs i x ≡ some (put xs i x)
  unfolding set_elem
  set_elem-put [] i x h = ground arith
  set_elem-put (y ∷ ys) zero x h = refl
  set_elem-put (y ∷ ys) (suc i) x h = rw (set_elem-put ys i x (omega (arith, h))) refl

  length-put : (xs : List A) (i : ℕ) (x : A) → length (put xs i x) ≡ length xs
  length-put [] i x = refl
  length-put (y ∷ ys) zero x = refl
  length-put (y ∷ ys) (suc i) x = ap suc (length-put ys i x)

  get_elem?-put : (xs : List A) (i : ℕ) (x : A) → i < length xs → get_elem? (put xs i x) i ≡ some x
  get_elem?-put [] i x h = ground arith
  get_elem?-put (y ∷ ys) zero x h = refl
  get_elem?-put (y ∷ ys) (suc i) x h = get_elem?-put ys i x (omega (arith, h))

  get_elem?-put_other :
      (xs : List A) (i : ℕ) (x : A) (j : ℕ) → i ≢ j → get_elem? (put xs i x) j ≡ get_elem? xs j
  get_elem?-put_other [] i x j d = refl
  get_elem?-put_other (y ∷ ys) zero x zero d = ground arith
  get_elem?-put_other (y ∷ ys) zero x (suc j) d = refl
  get_elem?-put_other (y ∷ ys) (suc i) x zero d = refl
  get_elem?-put_other (y ∷ ys) (suc i) x (suc j) d =
      get_elem?-put_other ys i x j (λ e. d (ap suc e))

  -- From the index `head` on, a buffer of `n` places holds the items of a list.
  pub record Holds (n : ℕ) (buf : List A) (head : ℕ) (xs : List A) : Type ℓ where
    pub width : length buf ≡ n
    pub place : head < n
    pub fits : length xs ≤ n
    pub items : (i : ℕ) → i < length xs → get_elem? buf ((head + i) % n) ≡ get_elem? xs i

  abbrev ring_of : ℕ → List A → ℕ → ℕ → RingStore A
  ring_of n buf head count = record { buf = buf; head = head; count = count; max_size = n }

  in_buffer : (n head i : ℕ) {buf xs : List A} → Holds n buf head xs → (head + i) % n < length buf
  in_buffer n head i w =
      subst (λ m. (head + i) % n < m) (sym w.width) (mod-lt (head + i) (omega (arith, w.place)))

  -- One `Add` on a ring with room.
  add-room :
      (n head count : ℕ) (buf : List A) (x : A)
      → (head + count) % n < length buf
      → (count == n) ≡ false
      → add x (ring_of n buf head count)
        ≡ some (ring_of n (put buf ((head + count) % n) x) head (count + 1))
  unfolding add advance
  add-room n head count buf x h k = rw (set_elem-put buf _ x h, k) refl

  add-full :
      (n head count : ℕ) (buf : List A) (x : A)
      → (head + count) % n < length buf
      → (count == n) ≡ true
      → add x (ring_of n buf head count)
        ≡ some (ring_of n (put buf ((head + count) % n) x) ((head + 1) % n) count)
  unfolding add advance
  add-full n head count buf x h k = rw (set_elem-put buf _ x h, k) refl

  room-Holds :
      (n head : ℕ) (buf : List A) (x : A) (xs : List A)
      → length xs < n
      → Holds n buf head xs
      → Holds n (put buf ((head + length xs) % n) x) head (xs ++ x ∷ [])
  room-Holds n head buf x xs h w = record {
    width = length-put buf _ x ∙ w.width;
    place = w.place;
    fits = omega (arith, length-append xs (x ∷ []));
    items = items;
  }
    where
      items :
          (i : ℕ)
          → i < length (xs ++ x ∷ [])
          → get_elem? (put buf ((head + length xs) % n) x) ((head + i) % n)
            ≡ get_elem? (xs ++ x ∷ []) i
      items i k = elim (Bool-cases (ltb i (length xs))) [
        | inl e ↦
            get_elem?-put_other buf _ x _
              (λ q. apart n head i (length xs) w.place (ground arith) w.fits (ground arith) (sym q))
            ∙ w.items i (ground arith)
            ∙ sym (get_elem?-front xs (x ∷ []) i (ground arith))
        | inr e ↦
            let end : i ≡ length xs = ground (arith, length-append xs (x ∷ [])) in
            rw end
              (get_elem?-put buf _ x (in_buffer n head (length xs) w) ∙ sym (get_elem?-last xs x))
      ]

  full-Holds :
      (n head : ℕ) (buf : List A) (x y : A) (ys : List A)
      → suc (length ys) ≡ n
      → Holds n buf head (y ∷ ys)
      → Holds n (put buf ((head + n) % n) x) ((head + 1) % n) (ys ++ x ∷ [])
  full-Holds n head buf x y ys h w = record {
    width = length-put buf _ x ∙ w.width;
    place = mod-lt (head + 1) (omega (arith, h));
    fits = omega (arith, length-append ys (x ∷ []));
    items = items;
  }
    where
      items :
          (i : ℕ)
          → i < length (ys ++ x ∷ [])
          → get_elem? (put buf ((head + n) % n) x) (((head + 1) % n + i) % n)
            ≡ get_elem? (ys ++ x ∷ []) i
      items i k = elim (Bool-cases (ltb i (length ys))) [
        | inl e ↦
            ap (get_elem? (put buf ((head + n) % n) x)) (around n head i)
            ∙ get_elem?-put_other buf _ x _ (λ q.
              apart n head (suc i) n w.place (ground arith) (omega arith) (omega arith) (sym q))
            ∙ w.items (suc i) (ground arith)
            ∙ sym (get_elem?-front ys (x ∷ []) i (ground arith))
        | inr e ↦
            let end : i ≡ length ys = ground (arith, length-append ys (x ∷ [])) in
            ap (get_elem? (put buf ((head + n) % n) x))
              (around n head i ∙ ap (λ m. (head + m) % n) (ap suc end ∙ h))
            ∙ get_elem?-put buf _ x (in_buffer n head n w)
            ∙ sym (get_elem?-last ys x)
            ∙ ap (get_elem? (ys ++ x ∷ [])) (sym end)
      ]

  -- The loop of `All` reads what the ring holds.
  read_from-items :
      (r : RingStore A) (i : ℕ) (xs : List A)
      → ((j : ℕ)
          → j < length xs
          → get_elem? r.buf ((r.head + (i + j)) % r.max_size) ≡ get_elem? xs j)
      → read_from r i (length xs) ≡ some xs
  unfolding read_from
  read_from-items r i [] h = refl
  read_from-items r i (x ∷ xs) h =
      let first : get_elem? r.buf ((r.head + i) % r.max_size) ≡ some x =
        ap (λ k. get_elem? r.buf ((r.head + k) % r.max_size)) (add_zero i) ∙ h 0 (omega arith) in
      let rest : read_from r (suc i) (length xs) ≡ some xs = read_from-items r (suc i) xs (λ j k.
        ap (λ m. get_elem? r.buf ((r.head + m) % r.max_size)) (add_suc i j)
        ∙ h (suc j) (omega (arith, k))) in
      rw (first, rest) refl

  keep-room : (n : ℕ) (x : A) (xs : List A) → length xs < n → keep n x xs ≡ xs ++ x ∷ []
  keep-room n x xs h = ap (λ k. drop k (xs ++ x ∷ [])) none_over
    where
      none_over : suc (length xs) - n ≡ 0
      none_over = omega (arith, h)

  keep-full :
      (n : ℕ) (x y : A) (ys : List A) → suc (length ys) ≡ n → keep n x (y ∷ ys) ≡ ys ++ x ∷ []
  keep-full n x y ys h = ap (λ k. drop k (y ∷ ys ++ x ∷ [])) one_over
    where
      one_over : suc (suc (length ys)) - n ≡ 1
      one_over = omega (arith, h)

  -- `Add` does not panic, and leaves a ring that holds the list `zs`.
  abbrev AddsTo : ℕ → ℕ → List A → A → List A → List A → Type ℓ
  AddsTo n head buf x xs zs =
      (buf' : List A) × (head' : ℕ) × (add x (ring_of n buf head (length xs))
        ≡ some (ring_of n buf' head' (length zs)))
      × Holds n buf' head' zs

  add-AddsTo_full :
      (n head : ℕ) (buf : List A) (x : A) (xs : List A)
      → (length xs == n) ≡ true
      → Holds n buf head xs
      → AddsTo n head buf x xs (keep n x xs)
  add-AddsTo_full n head buf x [] e w = ground (arith, w.place)
  add-AddsTo_full n head buf x (y ∷ ys) e w =
      let full : suc (length ys) ≡ n = ground arith in
      let same : suc (length ys) ≡ length (ys ++ x ∷ []) =
        omega (arith, length-append ys (x ∷ [])) in
      subst (AddsTo n head buf x (y ∷ ys)) (sym (keep-full n x y ys full)) (
        put buf ((head + n) % n) x,
        (head + 1) % n,
        add-full n head (suc (length ys)) buf x (in_buffer n head _ w) e
            ∙ ap
                (λ m.
                  some (ring_of n (put buf ((head + m) % n) x) ((head + 1) % n) (suc (length ys))))
                full
            ∙ ap (λ m. some (ring_of n (put buf ((head + n) % n) x) ((head + 1) % n) m)) same,
        full-Holds n head buf x y ys full w,
      )

  add-AddsTo :
      (n head : ℕ) (buf : List A) (x : A) (xs : List A)
      → Holds n buf head xs
      → AddsTo n head buf x xs (keep n x xs)
  add-AddsTo n head buf x xs w = elim (Bool-cases (length xs == n)) [
    | inl e ↦ add-AddsTo_full n head buf x xs e w
    | inr e ↦
        let room : length xs < n = ground (arith, w.fits) in
        let more : length xs + 1 ≡ length (xs ++ x ∷ []) =
          omega (arith, length-append xs (x ∷ [])) in
        subst (AddsTo n head buf x xs) (sym (keep-room n x xs room)) (
          put buf ((head + length xs) % n) x,
          head,
          add-room n head (length xs) buf x (in_buffer n head _ w) e
              ∙ ap (λ m. some (ring_of n (put buf ((head + length xs) % n) x) head m)) more,
          room-Holds n head buf x xs room w,
        )
  ]

  all-items :
      (n head : ℕ) (buf xs : List A)
      → Holds n buf head xs
      → all (ring_of n buf head (length xs)) ≡ some xs
  unfolding all
  all-items n head buf xs w =
      read_from-items (ring_of n buf head (length xs)) 0 xs
        (λ j k. ap (λ m. get_elem? buf ((head + m) % n)) (zero_add j) ∙ w.items j k)

  empty-Holds : (n : ℕ) (buf : List A) → 0 < n → length buf ≡ n → Holds n buf 0 []
  empty-Holds n buf h k = record {
    width = k;
    place = h;
    fits = omega arith;
    items = λ i l. ground arith;
  }

  run_ring-last :
      (n head : ℕ) (buf xs seen : List A) (calls : List (Call A))
      → xs ≡ last n seen
      → Holds n buf head xs
      → (run_ring (ring_of n buf head (length xs)) calls >>= λ r. all r)
        ≡ some (last n (since_clear seen calls))
  unfolding run_ring since_clear clear
  run_ring-last n head buf xs seen [] e w = all-items n head buf xs w ∙ ap some e
  run_ring-last n head buf xs seen (adds x ∷ calls) e w =
      let (buf', head', step, v) = add-AddsTo n head buf x xs w in
      rw step (
        run_ring-last n head' buf' (keep n x xs) (seen ++ x ∷ []) calls
          (ap (keep n x) e ∙ keep-last n x seen (omega (arith, w.place))) v)
  run_ring-last n head buf xs seen (clears ∷ calls) e w =
      run_ring-last n 0 buf [] [] calls (sym (last-short n [] (omega arith)))
        (empty-Holds n buf (omega (arith, w.place)) w.width)

  -- The stores of MQTT and NATS: after any calls of `Add` and `Clear` on a new store, none of which
  -- reads or writes out of range, `All` gives the messages since the last `Clear` in the order in
  -- which they came, and only the newest of them when they are more than the size of the store.
  pub all-refines :
      (blank : A) (max_size : ℤ) (calls : List (Call A))
      → (run_ring (new_ring blank max_size) calls >>= λ r. all r)
        ≡ some (last (size_of max_size) (since_clear [] calls))
  unfolding new_ring
  all-refines blank max_size calls =
      run_ring-last (size_of max_size) 0 (const_list (size_of max_size) blank) [] [] calls
        (sym (last-short (size_of max_size) [] (omega arith)))
        (empty-Holds _ _ (size_of-pos max_size) (length-const_list (size_of max_size) blank))
