-- ===== src/Bytes/Agree.antt =====
-- Reads of two functions that give the same bytes.
use crab_efi.Prelude.{
  [], ℕ, zero, suc, ◌+◌, ◌≤◌, ◌<◌, ◌≡◌, refl, arith, ap, sym, ◌∙◌, ◌++◌, ◌∷◌, drop, length, take,
  length-drop,
}
use crab_efi.Bytes.{byte, le16, le32, le64, bytes_at, List}

-- Functions that agree on so many bytes, the one from `p` on, the other from `q` on.
module _ (at at' : ℕ → ℕ) (p q size : ℕ)
    (agree : (i : ℕ) → i < size → at (p + i) ≡ at' (q + i)) where
  agree_at : (i x y : ℕ) → x ≡ p + i → y ≡ q + i → i < size → at x ≡ at' y
  agree_at i x y e f h = ap at e ∙ agree i h ∙ sym (ap at' f)

  pub bytes_at-agree :
      (n i x y : ℕ) → x ≡ p + i → y ≡ q + i → i + n ≤ size → bytes_at at x n ≡ bytes_at at' y n
  bytes_at-agree zero i x y e f h = refl
  bytes_at-agree (suc n) i x y e f h =
      let head = agree_at i x y e f (omega arith) in
      let tail =
        bytes_at-agree n (i + 1) (x + 1) (y + 1) (omega (arith, e)) (omega (arith, f))
          (omega arith) in
      rw (head, tail) refl

  pub le16-agree : (i x y : ℕ) → x ≡ p + i → y ≡ q + i → i + 2 ≤ size → le16 at x ≡ le16 at' y
  le16-agree i x y e f h = omega (
    arith,
    agree_at i x y e f (omega arith),
    agree_at (i + 1) (x + 1) (y + 1) (omega (arith, e)) (omega (arith, f)) (omega arith),
  )

  pub le32-agree : (i x y : ℕ) → x ≡ p + i → y ≡ q + i → i + 4 ≤ size → le32 at x ≡ le32 at' y
  le32-agree i x y e f h = omega (
    arith,
    agree_at i x y e f (omega arith),
    agree_at (i + 1) (x + 1) (y + 1) (omega (arith, e)) (omega (arith, f)) (omega arith),
    agree_at (i + 2) (x + 2) (y + 2) (omega (arith, e)) (omega (arith, f)) (omega arith),
    agree_at (i + 3) (x + 2 + 1) (y + 2 + 1) (omega (arith, e)) (omega (arith, f)) (omega arith),
  )

  pub le64-agree : (i x y : ℕ) → x ≡ p + i → y ≡ q + i → i + 8 ≤ size → le64 at x ≡ le64 at' y
  le64-agree i x y e f h = omega (
    arith,
    le32-agree i x y e f (omega arith),
    le32-agree (i + 4) (x + 4) (y + 4) (omega (arith, e)) (omega (arith, f)) (omega arith),
  )

-- Bytes and those behind them.
pub bytes_at-append :
    (at : ℕ → ℕ) (n k a : ℕ) → bytes_at at a k ++ bytes_at at (a + k) n ≡ bytes_at at a (k + n)
bytes_at-append at n zero a =
    ap (λ x. bytes_at at x n) (omega arith) ∙ ap (bytes_at at a) (omega arith)
bytes_at-append at n (suc k) a =
    let here : a + suc k ≡ a + 1 + k = omega arith in
    let count : suc k + n ≡ suc (k + n) = omega arith in
    rw (here, count) (ap (λ xs. at a ∷ xs) (bytes_at-append at n k (a + 1)))

-- A slice of a list.
byte-drop : (o : ℕ) (xs : List ℕ) (i : ℕ) → byte xs (o + i) ≡ byte (drop o xs) (0 + i)
byte-drop zero xs i = ap (byte xs) (omega arith)
byte-drop (suc o) [] i = refl
byte-drop (suc o) (x ∷ xs) i =
    let e : suc o + i ≡ suc (o + i) = omega arith in ap (byte (x ∷ xs)) e ∙ byte-drop o xs i

bytes_at-take : (n : ℕ) (xs : List ℕ) → n ≤ length xs → bytes_at (byte xs) 0 n ≡ take n xs
bytes_at-take zero xs h = refl
bytes_at-take (suc n) [] h = absurd (omega (arith, h))
bytes_at-take (suc n) (x ∷ xs) h =
    let shift : (i : ℕ) → i < n → byte (x ∷ xs) (1 + i) ≡ byte xs (0 + i) = λ i b.
      let e : 1 + i ≡ suc i = omega arith in ap (byte (x ∷ xs)) e ∙ ap (byte xs) (omega arith) in
    ap (λ ys. x ∷ ys)
      (bytes_at-agree (byte (x ∷ xs)) (byte xs) 1 0 n shift n 0 1 0 (omega arith) (omega arith)
          (omega arith)
        ∙ bytes_at-take n xs (omega (arith, h)))

pub bytes_at-slice :
    (o n : ℕ) (xs : List ℕ) → o + n ≤ length xs → bytes_at (byte xs) o n ≡ take n (drop o xs)
bytes_at-slice o n xs h =
    bytes_at-agree (byte xs) (byte (drop o xs)) o 0 n (λ i b. byte-drop o xs i) n 0 o 0
      (omega arith) (omega arith) (omega arith)
    ∙ bytes_at-take n (drop o xs) (omega (arith, h, length-drop o xs))

-- The bytes of a list behind another.
pub byte-append_left : (xs ys : List ℕ) (i : ℕ) → i < length xs → byte (xs ++ ys) i ≡ byte xs i
byte-append_left [] ys i h = absurd (omega (arith, h))
byte-append_left (x ∷ xs) ys zero h = refl
byte-append_left (x ∷ xs) ys (suc i) h = byte-append_left xs ys i (omega (arith, h))

pub byte-append : (xs ys : List ℕ) (i : ℕ) → byte (xs ++ ys) (length xs + i) ≡ byte ys i
byte-append [] ys i = ap (byte ys) (omega arith)
byte-append (x ∷ xs) ys i =
    let e : suc (length xs) + i ≡ suc (length xs + i) = omega arith in
    ap (byte (x ∷ xs ++ ys)) e ∙ byte-append xs ys i

pub length-bytes_at : (at : ℕ → ℕ) (n a : ℕ) → length (bytes_at at a n) ≡ n
length-bytes_at at zero a = refl
length-bytes_at at (suc n) a = ap suc (length-bytes_at at n (a + 1))
