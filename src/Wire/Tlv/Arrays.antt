-- ===== src/Wire/Tlv/Arrays.antt =====
-- `flatten32` and `unflatten32` are inverse to one another.
use pulse_go.Base.{
  ℕ, zero, suc, ◌+◌, ◌*◌, ◌/◌, ◌%◌, ◌<◌, ◌≡◌, refl, ap, sym, subst, ◌∙◌, arith, List, [], ◌∷◌, ◌++◌,
  length, take, drop, replicate, concat_map, ◌==◌, ◌⊎◌, inl, inr, length-append, length-drop,
  length-take, drop-drop, take-append-drop, drop_all, All, All-take, All-drop, Bool-cases, ==_iff,
}
use pulse_go.Errors.{bad_frame}
use pulse_go.Go.{ok, err, slice, IsByte}
use pulse_go.Go.Bytes.{slice-add, copy_full}
use pulse_go.Wire.Decoder.Parses.{IsAt, advance-IsAt}
use pulse_go.Wire.Tx.Valid.{IsArray}
use pulse_go.Wire.Tlv.{flatten32, unflatten_from, unflatten32}
use pulse_go.Wire.Tlv.Reads.{at, slice-at}

-- One round: the 32 bytes that stand at `i * 32`.
slice_round :
    (s rest src : List ℕ) (i : ℕ)
    → length s ≡ 32
    → IsAt (s ++ rest) (at src (i * 32))
    → slice src (i * 32) ((i + 1) * 32) ≡ ok s
slice_round s rest src i l h =
    ap (slice src (i * 32)) {x = (i + 1) * 32} {y = i * 32 + length s} (omega arith)
    ∙ slice-at s rest src (i * 32) h

next_round :
    (s rest src : List ℕ) (i : ℕ)
    → length s ≡ 32
    → IsAt (s ++ rest) (at src (i * 32))
    → IsAt rest (at src ((i + 1) * 32))
next_round s rest src i l h =
    subst (λ k. IsAt rest (at src k)) {x = i * 32 + length s} {y = (i + 1) * 32} (omega arith)
      (advance-IsAt s rest (at src (i * 32)) h)

unflatten_from_reads :
    (xs : List (List ℕ)) (i : ℕ) (src : List ℕ)
    → All (λ x. length x ≡ 32) xs
    → IsAt (concat_map (λ a. a) xs) (at src (i * 32))
    → unflatten_from (length xs) i src ≡ ok xs
unfolding unflatten_from
unflatten_from_reads [] i src all h = refl
unflatten_from_reads (x ∷ xs) i src (l, all) h =
    let rest = concat_map (λ a. a) xs in
    rw
      (
        slice_round x rest src i l h,
        unflatten_from_reads xs (i + 1) src all (next_round x rest src i l h),
        copy_full (replicate 32 0) x (sym l),
      )
      refl

pub length-flatten32 :
    (xs : List (List ℕ)) → All (λ x. length x ≡ 32) xs → length (flatten32 xs) ≡ length xs * 32
unfolding flatten32
length-flatten32 [] all = omega arith
length-flatten32 (x ∷ xs) (l, all) =
    omega (arith, length-append x (concat_map (λ a. a) xs), length-flatten32 xs all)

-- Flattened addresses of 32 bytes are read back.
pub unflatten32-flatten32 :
    (xs : List (List ℕ)) → All (λ x. length x ≡ 32) xs → unflatten32 (flatten32 xs) ≡ ok xs
unfolding unflatten32
unflatten32-flatten32 xs all =
    let l = length-flatten32 xs all in
    rw ((==_iff (length (flatten32 xs) % 32) 0).1 (omega arith)) (
      ap (λ n. unflatten_from n 0 (flatten32 xs)) {x = length (flatten32 xs) / 32} {y = length xs}
        (omega arith)
      ∙ unflatten_from_reads xs 0 (flatten32 xs) all
          (unfold flatten32 in record { inside = omega arith; ahead = refl }))

-- The rounds from `i` on cut up the rest of the input.
unflatten_from_total :
    (n i : ℕ) (src : List ℕ)
    → (i + n) * 32 ≡ length src
    → All IsByte src
    → (xs : List (List ℕ)) × (unflatten_from n i src ≡ ok xs)
      × All (IsArray 32) xs
      × (concat_map (λ a. a) xs ≡ drop (i * 32) src)
unfolding unflatten_from
unflatten_from_total zero i src l bytes = ([], refl, tt, sym (drop_all (i * 32) src (omega arith)))
unflatten_from_total (suc n) i src l bytes =
    let s : List ℕ = take 32 (drop (i * 32) src) in
    let ls : length s ≡ 32 =
      omega (arith, length-take 32 (drop (i * 32) src), length-drop (i * 32) src) in
    let (xs, e, all, whole) = unflatten_from_total n (i + 1) src (omega arith) bytes in
    (
      s ∷ xs,
      rw
          (
            ap (slice src (i * 32)) {x = (i + 1) * 32} {y = i * 32 + 32} (omega arith)
                ∙ slice-add src (i * 32) 32 (omega arith),
            e,
            copy_full (replicate 32 0) s (sym ls),
          )
          refl,
      ((ls, All-take IsByte 32 _ (All-drop IsByte (i * 32) src bytes)), all),
      ap (λ r. s ++ r)
            (whole
              ∙ ap (λ k. drop k src) {x = (i + 1) * 32} {y = i * 32 + 32} (omega arith)
              ∙ sym (drop-drop (i * 32) 32 src))
          ∙ take-append-drop 32 (drop (i * 32) src),
    )

-- On bytes `unflatten32` returns the addresses whose bytes the input is, and there are such exactly
-- if its length is a multiple of 32; otherwise it is `ErrBadFrame`.
pub unflatten32_total :
    (src : List ℕ)
    → All IsByte src
    → ((xs : List (List ℕ)) × (unflatten32 src ≡ ok xs)
        × All (IsArray 32) xs
        × (flatten32 xs ≡ src))
      ⊎ ((unflatten32 src ≡ err bad_frame) × (0 < length src % 32))
unfolding unflatten32 flatten32
unflatten32_total src bytes = elim (Bool-cases (length src % 32 == 0)) [
  | inl even ↦
      let multiple = (==_iff (length src % 32) 0).0 even in
      let (xs, e, all, whole) =
        unflatten_from_total (length src / 32) 0 src (omega (arith, multiple)) bytes in
      inl (xs, rw even e, all, whole)
  | inr odd ↦ inr (rw odd refl, ground arith)
]
