-- ===== src/Messages/Slice.antt =====
-- The `MessageStore` of internal/protocols/amqpserver/server.go.
use mockly.Base.{
  ◌>>=◌, ℕ, zero, suc, ◌+◌, ◌-◌, ◌≤◌, ◌<◌, ◌≡◌, refl, sym, ap, ◌∙◌, some, List, [], ◌∷◌, ◌++◌,
  arith, leb, length, length-append, length-drop, drop, Bool-cases, inl, inr,
}
use mockly.Base.Int.{ℤ, pos, negsuc}
use mockly.Messages.{
  Call, adds, clears, SliceStore, size_of, new_slice, add_slice, tail_of, all_slice, clear_slice,
  run_slice, last, since_clear,
}

pub size_of-pos : (max_size : ℤ) → 0 < size_of max_size
unfolding size_of
size_of-pos (pos zero) = omega arith
size_of-pos (pos (suc n)) = omega arith
size_of-pos (negsuc n) = omega arith

module _ {ℓ} {A : Type ℓ} where
  -- The message that a full log loses is the first one.
  abbrev pub keep : ℕ → A → List A → List A
  keep n x xs = drop (suc (length xs) - n) (xs ++ x ∷ [])

  drop-all : (k : ℕ) (xs : List A) → length xs ≤ k → drop k xs ≡ []
  drop-all zero [] h = refl
  drop-all zero (x ∷ xs) h = ground arith
  drop-all (suc k) [] h = refl
  drop-all (suc k) (x ∷ xs) h = drop-all k xs (omega (arith, h))

  drop-append_le : (k : ℕ) (xs ys : List A) → k ≤ length xs → drop k (xs ++ ys) ≡ drop k xs ++ ys
  drop-append_le zero xs ys h = refl
  drop-append_le (suc k) [] ys h = ground arith
  drop-append_le (suc k) (x ∷ xs) ys h = drop-append_le k xs ys (omega (arith, h))

  drop-nil : (j : ℕ) → drop {A = A} j [] ≡ []
  drop-nil zero = refl
  drop-nil (suc j) = refl

  pub drop-drop : (j k : ℕ) (xs : List A) → drop j (drop k xs) ≡ drop (k + j) xs
  drop-drop j zero xs = ap (λ i. drop i xs) lone
    where
      lone : j ≡ 0 + j
      lone = omega arith
  drop-drop j (suc k) [] = drop-nil j ∙ sym (drop-nil (suc k + j))
  drop-drop j (suc k) (x ∷ xs) = drop-drop j k xs ∙ ap (λ i. drop i (x ∷ xs)) shift
    where
      shift : suc (k + j) ≡ suc k + j
      shift = omega arith

  pub keep-last :
      (n : ℕ) (x : A) (xs : List A) → 0 < n → keep n x (last n xs) ≡ last n (xs ++ x ∷ [])
  unfolding last
  keep-last n x xs h =
      ap (λ l. drop (suc l - n) (drop (length xs - n) xs ++ x ∷ []))
        (length-drop (length xs - n) xs)
      ∙ ap (drop _) (sym (drop-append_le (length xs - n) xs (x ∷ []) (omega arith)))
      ∙ drop-drop _ (length xs - n) (xs ++ x ∷ [])
      ∙ ap (λ k. drop k (xs ++ x ∷ [])) (omega (arith, length-append xs (x ∷ [])))

  pub last-short : (n : ℕ) (xs : List A) → length xs ≤ n → last n xs ≡ xs
  unfolding last
  last-short n xs h = ap (λ k. drop k xs) none_over
    where
      none_over : length xs - n ≡ 0
      none_over = omega (arith, h)

  length-last-le : (n : ℕ) (xs : List A) → length (last n xs) ≤ n
  unfolding last
  length-last-le n xs = omega (arith, length-drop (length xs - n) xs)

  abbrev pub slice_of : ℕ → List A → SliceStore A
  slice_of n xs = record { messages = xs; max_size = n }

  -- One `Add` keeps the newest messages.
  add_slice-keep :
      (n : ℕ) (x : A) (xs : List A)
      → 0 < n
      → length xs ≤ n
      → add_slice x (slice_of n xs) ≡ some (slice_of n (keep n x xs))
  unfolding add_slice tail_of
  add_slice-keep n x [] h k = ground arith
  add_slice-keep n x (y ∷ ys) h k = elim (Bool-cases (leb n (length (y ∷ ys)))) [
    | inl e ↦ let over : suc (length (y ∷ ys)) - n ≡ 1 = ground arith in rw (e, over) refl
    | inr e ↦ let over : suc (length (y ∷ ys)) - n ≡ 0 = ground arith in rw (e, over) refl
  ]

  -- A store that started empty holds the last messages since the last `Clear`, at most its size.
  pub run_slice-last :
      (n : ℕ) (seen : List A) (calls : List (Call A))
      → 0 < n
      → run_slice (slice_of n (last n seen)) calls
        ≡ some (slice_of n (last n (since_clear seen calls)))
  unfolding run_slice since_clear clear_slice last
  run_slice-last n seen [] h = refl
  run_slice-last n seen (adds x ∷ calls) h =
      rw (add_slice-keep n x (last n seen) h (length-last-le n seen), keep-last n x seen h)
        (run_slice-last n (seen ++ x ∷ []) calls h)
  run_slice-last n seen (clears ∷ calls) h =
      ap (λ xs. run_slice (slice_of n xs) calls) (sym (drop-nil (0 - n)))
      ∙ run_slice-last n [] calls h

  -- The stores of AMQP, Kafka and STOMP: after any calls of `Add` and `Clear` on a new store, `Add`
  -- never having panicked, `All` gives the messages since the last `Clear` in the order in which
  -- they came, and only the newest of them when they are more than the size of the store.
  pub all_slice-refines :
      (max_size : ℤ) (calls : List (Call A))
      → (run_slice (new_slice max_size) calls >>= λ s. some (all_slice s))
        ≡ some (last (size_of max_size) (since_clear [] calls))
  unfolding new_slice all_slice
  all_slice-refines max_size calls =
      let start : last {A = A} (size_of max_size) [] ≡ [] =
        last-short (size_of max_size) [] (omega arith) in
      ap (λ xs. run_slice (slice_of (size_of max_size) xs) calls >>= λ s. some (all_slice s))
        (sym start)
      ∙ rw (run_slice-last (size_of max_size) [] calls (size_of-pos max_size)) refl
