-- ===== src/Procfs/Reads.antt =====
-- Reads of a file with its own content, of pkg/sandbox/procfs/procfs.go.
use runkube.Common.{
  ℕ, zero, suc, ◌+◌, ◌-◌, ◌≤◌, ◌<◌, ◌≡◌, refl, sym, ◌∙◌, ap, inl, inr, ◌⊎◌, List, [], ◌∷◌, ◌++◌,
  length, take, drop, min, leb, arith, Bool-cases,
}
use runkube.Procfs.{read_static}

-- Reads of `n` bytes each, from an offset on, until one gives nothing; at most `fuel` of them.
unfoldable pub read_all : ℕ → List ℕ → ℕ → ℕ → List ℕ
read_all zero content n off = []
read_all (suc fuel) content n off =
    let chunk = read_static content n off in
    let rest : List ℕ = read_all fuel content n (off + length chunk) in
    elim chunk [ [] ↦ [] | b ∷ bs ↦ (b ∷ bs) ++ rest ]

length-drop : (n : ℕ) (xs : List ℕ) → length (drop n xs) ≡ length xs - n
length-drop zero xs = omega arith
length-drop (suc n) [] = omega arith
length-drop (suc n) (x ∷ xs) = omega (arith, length-drop n xs)

take-min : (n : ℕ) (xs : List ℕ) → take (min n (length xs)) xs ≡ take n xs
take-min zero xs = (let e : min 0 (length xs) ≡ 0 = omega arith in rw e)
take-min (suc n) [] = ground arith
take-min (suc n) (x ∷ xs) =
    (let e : min (suc n) (suc (length xs)) ≡ suc (min n (length xs)) = omega arith in
      rw (e, take-min n xs))

drop_nil : (m : ℕ) → drop {A = ℕ} m [] ≡ []
drop_nil zero = refl
drop_nil (suc m) = refl

take_nil : (m : ℕ) → take {A = ℕ} m [] ≡ []
take_nil zero = refl
take_nil (suc m) = refl

empty_of : (xs : List ℕ) → length xs ≡ 0 → xs ≡ []
empty_of [] h = refl
empty_of (x ∷ xs) h = ground arith

-- A read gives the next bytes, as many as the buffer takes or the file has.
read_static_lem :
    (content : List ℕ) (n off : ℕ) → read_static content n off ≡ take n (drop off content)
unfolding read_static
read_static_lem content n off = elim (Bool-cases (leb (length content) off)) [
  | inl past ↦
      (let none_left : drop off content ≡ [] = empty_of (drop off content) (
          omega
            (arith, length-drop off content, (let h : length content ≤ off = ground arith in h))) in
        ground (arith, none_left, take_nil n))
  | inr inside ↦
      (let same : min (off + n) (length content) - off ≡ min n (length (drop off content)) =
          omega (arith, length-drop off content) in
        ground (arith, same, take-min n (drop off content)))
]

take-drop : (n : ℕ) (xs : List ℕ) → take n xs ++ drop (length (take n xs)) xs ≡ xs
take-drop zero xs = refl
take-drop (suc n) [] = refl
take-drop (suc n) (x ∷ xs) = ap (λ l. x ∷ l) (take-drop n xs)

drop-drop : (m n : ℕ) (xs : List ℕ) → drop m (drop n xs) ≡ drop (n + m) xs
drop-drop m zero xs = (let e : 0 + m ≡ m = omega arith in rw e)
drop-drop m (suc n) [] = (let e : suc n + m ≡ suc (n + m) = omega arith in rw (e, drop_nil m))
drop-drop m (suc n) (x ∷ xs) =
    (let e : suc n + m ≡ suc (n + m) = omega arith in rw (e, drop-drop m n xs))

read_all_end :
    (fuel : ℕ) (content : List ℕ) (n off : ℕ)
    → read_static content n off ≡ []
    → read_all (suc fuel) content n off ≡ []
unfolding read_all
read_all_end fuel content n off e = ground arith

read_all_more :
    (fuel : ℕ) (content : List ℕ) (n off : ℕ) (b : ℕ) (bs : List ℕ)
    → read_static content n off ≡ b ∷ bs
    → read_all (suc fuel) content n off
      ≡ (b ∷ bs) ++ read_all fuel content n (off + length (b ∷ bs))
unfolding read_all
read_all_more fuel content n off b bs e = ground arith

List-cases : (d : List ℕ) → (d ≡ []) ⊎ ((x : ℕ) × (xs : List ℕ) × (d ≡ x ∷ xs))
List-cases [] = inl refl
List-cases (x ∷ xs) = inr (x, xs, refl)

read_all_from :
    (fuel : ℕ) (content : List ℕ) (n off : ℕ)
    → length (drop off content) < fuel
    → read_all fuel content (suc n) off ≡ drop off content
read_all_from zero content n off h = ground arith
read_all_from (suc fuel) content n off h = elim (List-cases (drop off content)) [
  | inl none_left ↦
      let nothing : read_static content (suc n) off ≡ [] =
        read_static_lem content (suc n) off ∙ rw none_left in
      read_all_end fuel content (suc n) off nothing ∙ sym none_left
  | inr (x, xs, left) ↦
      let chunk : List ℕ = x ∷ take n xs in
      let first : read_static content (suc n) off ≡ chunk =
        read_static_lem content (suc n) off ∙ rw left in
      let later : drop (off + length chunk) content ≡ drop (length chunk) (x ∷ xs) =
        sym (drop-drop (length chunk) off content) ∙ rw left in
      let fewer : length (drop (off + length chunk) content) < fuel = omega (
        arith,
        length-drop (off + length chunk) content,
        length-drop off content,
        h,
        ap (λ l. length l) left,
      ) in
      read_all_more fuel content (suc n) off x (take n xs) first
      ∙ (ap (λ l. chunk ++ l) (read_all_from fuel content n (off + length chunk) fewer ∙ later)
          ∙ (take-drop (suc n) (x ∷ xs) ∙ sym left))
]

-- Reads with a buffer of at least one byte, from the start of the file on until a read gives nothing,
-- give the whole content: each byte once and in order. One read more than the content has bytes is
-- enough for the end to be seen.
pub read_all_lem :
    (content : List ℕ) (n : ℕ) → read_all (suc (length content)) content (suc n) 0 ≡ content
read_all_lem content n = read_all_from (suc (length content)) content n 0 (omega arith)
