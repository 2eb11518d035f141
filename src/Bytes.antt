-- ===== src/Bytes.antt =====
-- What the program uses of the `bytes` crate (a dependency): reading from the front of a `Bytes` or
-- `BytesMut`, and `put_u16` onto a `Vec<u8>`. The laws are its documentation: multi-byte reads and
-- writes are big-endian, `copy_to_bytes(n)` splits off the first n bytes, and each read is specified
-- only where enough bytes remain (else it panics).
use mytunnel.Prelude.{
  ℕ, ◌≤◌, ◌≡◌, refl, ap, ◌∙◌, length-append, take-append, drop-append, List, [], ◌∷◌, ◌++◌, length,
  take, drop, arith, IsU16, to_be_bytes, from_be_bytes,
}

pub record BytesCrate : Type 1 where
  pub Buf : Type 0
  -- the bytes that are left to read
  pub contents : Buf → List ℕ
  -- `Bytes::from(vec)`, `BytesMut::extend_from_slice` onto an empty buffer
  pub from_vec : List ℕ → Buf
  pub remaining : Buf → ℕ
  pub get_u8 : Buf → ℕ × Buf
  pub get_u16 : Buf → ℕ × Buf
  pub copy_to_bytes : ℕ → Buf → Buf × Buf
  -- `copy_to_slice` into an array of n bytes
  pub copy_to_slice : ℕ → Buf → List ℕ × Buf
  pub put_u16 : List ℕ → ℕ → List ℕ
  pub contents-from_vec : (v : List ℕ) → contents (from_vec v) ≡ v
  pub remaining_lem : (b : Buf) → remaining b ≡ length (contents b)
  pub get_u8_lem :
      (b : Buf) (x : ℕ) (xs : List ℕ)
      → contents b ≡ x ∷ xs
      → ((get_u8 b).0 ≡ x) × (contents (get_u8 b).1 ≡ xs)
  pub get_u16_lem :
      (b : Buf) (x y : ℕ) (xs : List ℕ)
      → contents b ≡ x ∷ y ∷ xs
      → ((get_u16 b).0 ≡ from_be_bytes x y) × (contents (get_u16 b).1 ≡ xs)
  pub copy_to_bytes_lem :
      (n : ℕ) (b : Buf)
      → n ≤ length (contents b)
      → (contents (copy_to_bytes n b).0 ≡ take n (contents b))
        × (contents (copy_to_bytes n b).1 ≡ drop n (contents b))
  pub copy_to_slice_lem :
      (n : ℕ) (b : Buf)
      → n ≤ length (contents b)
      → ((copy_to_slice n b).0 ≡ take n (contents b))
        × (contents (copy_to_slice n b).1 ≡ drop n (contents b))
  pub put_u16_lem : (v : List ℕ) (n : ℕ) → IsU16 n → put_u16 v n ≡ v ++ to_be_bytes n

-- Plain lists meet the laws.
abbrev pub list_get_u8 : List ℕ → ℕ × List ℕ
list_get_u8 [] = (0, [])
list_get_u8 (x ∷ xs) = (x, xs)

abbrev pub list_get_u16 : List ℕ → ℕ × List ℕ
list_get_u16 [] = (0, [])
list_get_u16 (x ∷ []) = (0, [])
list_get_u16 (x ∷ y ∷ xs) = (from_be_bytes x y, xs)

pub list_get_u8_lem :
    (b : List ℕ) (x : ℕ) (xs : List ℕ)
    → b ≡ x ∷ xs
    → ((list_get_u8 b).0 ≡ x) × ((list_get_u8 b).1 ≡ xs)
list_get_u8_lem b x xs e = rw e (refl, refl)

pub list_get_u16_lem :
    (b : List ℕ) (x y : ℕ) (xs : List ℕ)
    → b ≡ x ∷ y ∷ xs
    → ((list_get_u16 b).0 ≡ from_be_bytes x y) × ((list_get_u16 b).1 ≡ xs)
list_get_u16_lem b x y xs e = rw e (refl, refl)

abbrev pub list_bytes : BytesCrate
list_bytes = record {
  Buf = List ℕ;
  contents = λ b. b;
  from_vec = λ v. v;
  remaining = length;
  get_u8 = list_get_u8;
  get_u16 = list_get_u16;
  copy_to_bytes = λ n b. (take n b, drop n b);
  copy_to_slice = λ n b. (take n b, drop n b);
  put_u16 = λ v n. v ++ to_be_bytes n;
  contents-from_vec = λ v. refl;
  remaining_lem = λ b. refl;
  get_u8_lem = list_get_u8_lem;
  get_u16_lem = list_get_u16_lem;
  copy_to_bytes_lem = λ n b h. (refl, refl);
  copy_to_slice_lem = λ n b h. (refl, refl);
  put_u16_lem = λ v n h. refl;
}

-- Splitting a front part of known length off a buffer.
module _ (bytes : BytesCrate) (b : bytes.Buf) (s rest : List ℕ)
    (e : bytes.contents b ≡ s ++ rest) where
  front_fits : length s ≤ length (bytes.contents b)
  front_fits = rw e (omega (arith, length-append s rest))

  pub copy_to_bytes-append :
      (bytes.contents (bytes.copy_to_bytes (length s) b).0 ≡ s)
      × (bytes.contents (bytes.copy_to_bytes (length s) b).1 ≡ rest)
  copy_to_bytes-append =
      let c = bytes.copy_to_bytes_lem (length s) b front_fits in
      (
        c.0 ∙ ap (take (length s)) e ∙ take-append s rest,
        c.1 ∙ ap (drop (length s)) e ∙ drop-append s rest,
      )

  pub copy_to_slice-append :
      ((bytes.copy_to_slice (length s) b).0 ≡ s)
      × (bytes.contents (bytes.copy_to_slice (length s) b).1 ≡ rest)
  copy_to_slice-append =
      let c = bytes.copy_to_slice_lem (length s) b front_fits in
      (
        c.0 ∙ ap (take (length s)) e ∙ take-append s rest,
        c.1 ∙ ap (drop (length s)) e ∙ drop-append s rest,
      )
