-- ===== src/Amqp/Wire/Laws.antt =====
-- The frames of internal/protocols/amqpserver/server.go and the values in them.
use mockly.Base.{
  ℕ, ◌+◌, ◌*◌, ◌/◌, ◌%◌, ◌≤◌, ◌<◌, ◌≡◌, refl, sym, ap, ◌∙◌, false, some, [], ◌∷◌, ◌++◌, Bytes,
  arith, ltb, length, take, get_elem?, length-append, drop-append, append_assoc, const_list,
  Bool-cases, inl, inr, zero, suc,
}
use mockly.Amqp.Wire.{
  put_uint16, put_uint32, uint16_at, uint32_at, read_full, read_payload, checked_end, read_frame,
  write_frame, read_short_str, encode_short_str, padded, max_payload,
}

join16 : (v : ℕ) → v < 65536 → v / 256 % 256 * 256 + v % 256 ≡ v
join16 v h = omega (arith, h)

pub join32 :
    (v : ℕ)
    → v < 4294967296
    → (v / 65536 / 256 % 256 * 256 + v / 65536 % 256) * 65536 + (v / 256 % 256 * 256 + v % 256) ≡ v
join32 v h = omega (arith, h)

take-front : (xs ys : Bytes) → take (length xs) (xs ++ ys) ≡ xs
take-front [] ys = refl
take-front (x ∷ xs) ys = ap (◌∷◌ x) (take-front xs ys)

read_full-front : (xs ys : Bytes) → read_full (length xs) (xs ++ ys) ≡ some (xs, ys)
unfolding read_full
read_full-front xs ys = rw (fits, take-front xs ys, drop-append xs ys) refl
  where
    fits : ltb (length (xs ++ ys)) (length xs) ≡ false
    fits = ground (arith, length-append xs ys)

get_elem?-end : (xs : Bytes) (x : ℕ) → get_elem? (xs ++ x ∷ []) (length xs) ≡ some x
get_elem?-end [] x = refl
get_elem?-end (y ∷ xs) x = get_elem?-end xs x

checked_end-good :
    (t c : ℕ) (payload : Bytes)
    → checked_end t c (length payload) (payload ++ 206 ∷ [])
      ≡ some (record { frame_type = t; channel = c; payload = payload })
unfolding checked_end
checked_end-good t c payload = rw (get_elem?-end payload 206, take-front payload (206 ∷ [])) refl

-- The octets in front of the payload.
header : ℕ → ℕ → ℕ → Bytes
unfolding put_uint16 put_uint32
header t c n = t ∷ put_uint16 c ++ put_uint32 n

read_body :
    (payload r : Bytes)
    → read_full (length payload + 1) ((payload ++ 206 ∷ []) ++ r) ≡ some (payload ++ 206 ∷ [], r)
read_body payload r =
    ap (λ n. read_full n ((payload ++ 206 ∷ []) ++ r)) whole
    ∙ read_full-front (payload ++ 206 ∷ []) r
  where
    whole : length payload + 1 ≡ length (payload ++ 206 ∷ [])
    whole = omega (arith, length-append payload (206 ∷ []))

read_payload-header :
    (t c : ℕ) (payload r : Bytes)
    → c < 65536
    → length payload ≤ max_payload
    → read_payload (header t c (length payload)) ((payload ++ 206 ∷ []) ++ r)
      ≡ some (record { frame_type = t; channel = c; payload = payload }, r)
unfolding read_payload header put_uint16 put_uint32 uint16_at uint32_at
read_payload-header t c payload r h k =
    rw
      (
        join16 c h,
        join32 (length payload) (omega (arith, k)),
        small,
        read_body payload r,
        checked_end-good t c payload,
      )
      refl
  where
    small : ltb max_payload (length payload) ≡ false
    small = ground arith

-- A frame on a channel of 16 bits that holds at most ten megabytes is read as it was written, and
-- what follows it is left to read.
pub read_frame-write_frame :
    (t c : ℕ) (payload r : Bytes)
    → c < 65536
    → length payload ≤ max_payload
    → read_frame (write_frame t c payload ++ r)
      ≡ some (record { frame_type = t; channel = c; payload = payload }, r)
unfolding read_frame write_frame header
read_frame-write_frame t c payload r h k =
    rw (read_full-front (header t c (length payload)) ((payload ++ 206 ∷ []) ++ r))
      (read_payload-header t c payload r h k)

padded-front : (s r : Bytes) → padded (length s) (s ++ r) ≡ s
unfolding padded
padded-front s r =
    ap (take (length s)) (append_assoc s r (const_list (length s) 0))
    ∙ take-front s (r ++ const_list (length s) 0)

pub take-short : (n : ℕ) (s : Bytes) → length s ≤ n → take n s ≡ s
take-short zero [] h = refl
take-short zero (c ∷ s) h = ground arith
take-short (suc n) [] h = refl
take-short (suc n) (c ∷ s) h = ap (◌∷◌ c) (take-short n s (omega (arith, h)))

encode_short_str-take : (s : Bytes) → encode_short_str s ≡ length (take 255 s) ∷ take 255 s
unfolding encode_short_str
encode_short_str-take s = elim (Bool-cases (ltb 255 (length s))) [
  | inl e ↦ rw e refl
  | inr e ↦ rw e (ap (λ t. length t ∷ t) (sym (take-short 255 s (ground arith))))
]

-- A string is read as it was written, cut at 255 octets, and what follows it is left to read.
pub read_short_str-encode_short_str :
    (s r : Bytes) → read_short_str (encode_short_str s ++ r) ≡ (take 255 s, r)
unfolding read_short_str
read_short_str-encode_short_str s r =
    rw (encode_short_str-take s, padded-front (take 255 s) r, drop-append (take 255 s) r) refl
