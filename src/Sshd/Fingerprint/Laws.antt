-- ===== src/Sshd/Fingerprint/Laws.antt =====
-- The loop writes the hexadecimal pairs of the hash with colons between them.
use sa_builder.Base.{
  ℕ, suc, ◌+◌, ◌*◌, ◌/◌, ◌%◌, ◌≡◌, refl, sym, ap, ◌∙◌, ◌⊎◌, Bytes, [], ◌∷◌, ◌++◌, append_assoc,
  some, length, length-append, arith,
}
use mathlib.Core.List.{map}
use sa_builder.Strings.{join}
use sa_builder.Sshd.Fingerprint.{
  store, hex_digit, hex_encode, colon, make_bytes, put_digit, colon_loop, colon_notation,
}

-- The two digits of a byte.
pub hex_pair : ℕ → Bytes
hex_pair b = hex_digit (b / 16) ∷ hex_digit (b % 16) ∷ []

-- Every pair behind a colon.
coloned : Bytes → Bytes
coloned [] = []
coloned (b ∷ bs) = colon ∷ hex_digit (b / 16) ∷ hex_digit (b % 16) ∷ coloned bs

store-append :
    (out rest : Bytes) (c b : ℕ) → store (out ++ c ∷ rest) (length out) b ≡ some (out ++ b ∷ rest)
unfolding store
store-append [] rest c b = refl
store-append (x ∷ out) rest c b = rw (store-append out rest c b)

store_next :
    (out rest : Bytes) (a c b : ℕ)
    → store (out ++ a ∷ c ∷ rest) (length out + 1) b ≡ some (out ++ a ∷ b ∷ rest)
unfolding store
store_next [] rest a c b = refl
store_next (x ∷ out) rest a c b =
    let e : suc (length out) + 1 ≡ suc (length out + 1) = omega arith in
    rw e (rw (store_next out rest a c b))

-- At an even index above 0 a colon and the digit are written.
put_digit_even :
    (i m b x y : ℕ) (out rest : Bytes)
    → i ≡ 2 * m + 2
    → put_digit i (length out) b (out ++ x ∷ y ∷ rest)
      ≡ some (out ++ colon ∷ b ∷ rest, length out + 2)
unfolding put_digit
put_digit_even i m b x y out rest ei =
    ground (arith, store-append out (y ∷ rest) x colon, store_next out rest colon y b)

-- At an odd index and at 0 the digit alone is written.
put_digit_odd :
    (i m b x : ℕ) (out rest : Bytes)
    → (i ≡ 2 * m + 1) ⊎ (i ≡ 0)
    → put_digit i (length out) b (out ++ x ∷ rest) ≡ some (out ++ b ∷ rest, length out + 1)
unfolding put_digit
put_digit_odd i m b x out rest ei = ground (arith, store-append out rest x b)

-- The zeros that the pairs behind the first one are written over.
zeros : Bytes → Bytes
zeros [] = []
zeros (b ∷ bs) = 0 ∷ 0 ∷ 0 ∷ zeros bs

make_bytes-zeros : (bs : Bytes) (n : ℕ) → n ≡ 3 * length bs → make_bytes n ≡ zeros bs
unfolding make_bytes zeros
make_bytes-zeros [] n e = rw e
make_bytes-zeros (b ∷ bs) n e =
    let f : n ≡ suc (suc (suc (3 * length bs))) = omega arith in
    rw f (rw (make_bytes-zeros bs (3 * length bs) refl))

append_two : (out rest : Bytes) (a b : ℕ) → out ++ a ∷ b ∷ rest ≡ (out ++ a ∷ b ∷ []) ++ rest
append_two out rest a b = sym (append_assoc out (a ∷ b ∷ []) rest)

-- One byte of the hash behind the first one: two rounds write a colon and its two digits.
colon_loop_pair :
    (hi lo : ℕ) (buf out rest : Bytes) (i m : ℕ)
    → i ≡ 2 * m + 2
    → colon_loop (hi ∷ lo ∷ buf) i (length out) (out ++ 0 ∷ 0 ∷ 0 ∷ rest)
      ≡ colon_loop buf
          (i + 2)
          (length (out ++ colon ∷ hi ∷ lo ∷ []))
          ((out ++ colon ∷ hi ∷ lo ∷ []) ++ rest)
unfolding colon_loop
colon_loop_pair hi lo buf out rest i m ei =
    let hi_digit = put_digit_even i m hi 0 0 out (0 ∷ rest) ei in
    let second = put_digit_odd (i + 1) (m + 1) lo 0 (out ++ colon ∷ hi ∷ []) rest (omega arith) in
    let here : length (out ++ colon ∷ hi ∷ []) ≡ length out + 2 = length-append out _ in
    let then_ : length (out ++ colon ∷ hi ∷ lo ∷ []) ≡ length out + 3 = length-append out _ in
    let before = append_assoc out (colon ∷ hi ∷ []) (0 ∷ rest) in
    let after = append_assoc out (colon ∷ hi ∷ []) (lo ∷ rest) in
    let whole = append_assoc out (colon ∷ hi ∷ lo ∷ []) rest in
    let ei' : i + 1 + 1 ≡ i + 2 = omega arith in
    let ej' : length out + 2 + 1 ≡ length out + 3 = omega arith in
    rw (hi_digit, colon_loop) (rw (← here, ← before, second, after, here, ej', ei', then_, whole))

colon_loop-coloned :
    (bs out : Bytes) (i m : ℕ)
    → i ≡ 2 * m + 2
    → colon_loop (hex_encode bs) i (length out) (out ++ zeros bs) ≡ some (out ++ coloned bs)
unfolding hex_encode zeros coloned
colon_loop-coloned [] out i m ei = unfold colon_loop in refl
colon_loop-coloned (b ∷ bs) out i m ei =
    let hi = hex_digit (b / 16) in
    let lo = hex_digit (b % 16) in
    let ih = colon_loop-coloned bs (out ++ colon ∷ hi ∷ lo ∷ []) (i + 2) (m + 1) (omega arith) in
    colon_loop_pair hi lo (hex_encode bs) out (zeros bs) i m ei
    ∙ ih
    ∙ ap some (append_assoc out (colon ∷ hi ∷ lo ∷ []) (coloned bs))

-- The first byte has no colon.
colon_loop_first :
    (hi lo : ℕ) (buf rest : Bytes)
    → colon_loop (hi ∷ lo ∷ buf) 0 0 (0 ∷ 0 ∷ rest) ≡ colon_loop buf 2 2 (hi ∷ lo ∷ rest)
unfolding colon_loop put_digit store
colon_loop_first hi lo buf rest = refl

length-hex_encode : (bs : Bytes) → length (hex_encode bs) ≡ 2 * length bs
unfolding hex_encode
length-hex_encode [] = refl
length-hex_encode (b ∷ bs) = omega (arith, length-hex_encode bs)

join-hex_pair :
    (b : ℕ) (bs : Bytes) → join (map hex_pair (b ∷ bs)) (colon ∷ []) ≡ hex_pair b ++ coloned bs
unfolding join hex_pair coloned
join-hex_pair b [] = refl
join-hex_pair b (c ∷ bs) = rw (join-hex_pair c bs)

length-coloned : (bs : Bytes) → length (coloned bs) ≡ 3 * length bs
unfolding coloned
length-coloned [] = refl
length-coloned (b ∷ bs) = omega (arith, length-coloned bs)

-- For a hash of 16 bytes the loop writes inside its buffer and fills it: the result is the sixteen
-- pairs of hexadecimal digits joined by colons, 47 bytes long.
pub colon_notation_of_md5 :
    (hash : Bytes)
    → length hash ≡ 16
    → (colon_notation hash ≡ some (join (map hex_pair hash) (colon ∷ [])))
      × (length (join (map hex_pair hash) (colon ∷ [])) ≡ 47)
unfolding colon_notation hex_encode make_bytes hex_pair
colon_notation_of_md5 [] h = absurd (omega arith)
colon_notation_of_md5 (b ∷ bs) h =
    let n : suc (suc (length (hex_encode bs))) + 15 ≡ suc (suc (3 * length bs)) =
      omega (arith, length-hex_encode bs) in
    (
      rw (n, make_bytes-zeros bs (3 * length bs) refl, colon_loop_first, join-hex_pair b bs)
          (colon_loop-coloned bs (hex_pair b) 2 0 (omega arith)),
      rw (join-hex_pair b bs) (unfold hex_pair in omega (arith, length-coloned bs)),
    )
