-- ===== src/Capture/Lines.antt =====
-- app/capture/wal_writer.py: proofs about the lines of a file, the ones that a failure left included.
use guardian_llmprovider_gat.Prelude.{
  ℕ, zero, suc, ◌≡◌, refl, ap, ◌∙◌, Bool, true, false, List, [], ◌∷◌, ◌++◌, ◌==◌, if◌then◌else◌,
  Bool-cases, All, inl, inr, append_assoc, subst,
}
use guardian_llmprovider_gat.Capture.Writer.{
  Bytes, newline, first_bytes, ends_line, terminate_partial_line,
}

abbrev pub prepend : ℕ → List Bytes → List Bytes
prepend b [] = (b ∷ []) ∷ []
prepend b (l ∷ ls) = (b ∷ l) ∷ ls

-- The lines that a reader of a file gets, the last one also if no newline ends it.
unfoldable pub lines_of : Bytes → List Bytes
lines_of [] = []
lines_of (b ∷ bs) = if b == newline then [] ∷ lines_of bs else prepend b (lines_of bs)

-- What a write leaves of a record after so many bytes.
abbrev pub piece : ℕ → Bytes → List Bytes
piece zero line = []
piece (suc n) line = first_bytes (suc n) line ∷ []

abbrev pub IsRecord : Bytes → Type 0
IsRecord = All (λ b. (b == newline) ≡ false)

prepend-append :
    (b : ℕ) (xs ys zs : List Bytes) (x : Bytes)
    → xs ≡ x ∷ zs
    → prepend b (xs ++ ys) ≡ prepend b xs ++ ys
prepend-append b xs ys zs x e = rw e refl

lines_of-cons :
    (b : ℕ) (bs : Bytes) → (x : Bytes) × (xs : List Bytes) × (lines_of (b ∷ bs) ≡ x ∷ xs)
unfolding lines_of
lines_of-cons b bs = split (b == newline) (lines_of bs)
  where
    split :
        (t : Bool) (ls : List Bytes)
        → (x : Bytes) × (xs : List Bytes) × ((if t then [] ∷ ls else prepend b ls) ≡ x ∷ xs)
    split true ls = ([], ls, refl)
    split false [] = (b ∷ [], [], refl)
    split false (l ∷ ls) = (b ∷ l, ls, refl)

-- What is added after a whole line makes lines of its own.
pub lines_of-append :
    (c d : Bytes) → ends_line c ≡ true → lines_of (c ++ d) ≡ lines_of c ++ lines_of d
unfolding lines_of ends_line
lines_of-append [] d h = refl
lines_of-append (b ∷ []) d h = rw h refl
lines_of-append (b ∷ a ∷ bs) d h =
    let rest = lines_of-append (a ∷ bs) d h in
    let (x, xs, e) = lines_of-cons a bs in
    elim (Bool-cases (b == newline)) [
      | inl t ↦ rw t (ap (λ (ls : List Bytes). [] ∷ ls) rest)
      | inr t ↦
          rw t (ap (prepend b) rest ∙ prepend-append b (lines_of (a ∷ bs)) (lines_of d) xs x e)
    ]

ends_line-newline : (c : Bytes) → ends_line (c ++ newline ∷ []) ≡ true
unfolding ends_line
ends_line-newline [] = refl
ends_line-newline (b ∷ []) = refl
ends_line-newline (b ∷ a ∷ bs) = ends_line-newline (a ∷ bs)

-- To end a line that is not ended changes no line.
lines_of-ended : (c : Bytes) → ends_line c ≡ false → lines_of (c ++ newline ∷ []) ≡ lines_of c
unfolding lines_of ends_line
lines_of-ended [] h = cc
lines_of-ended (b ∷ []) h = rw h refl
lines_of-ended (b ∷ a ∷ bs) h =
    let rest = lines_of-ended (a ∷ bs) h in
    ap (λ (ls : List Bytes). if b == newline then [] ∷ ls else prepend b ls) rest

pub ends_line-terminated : (c : Bytes) → ends_line (terminate_partial_line c) ≡ true
unfolding terminate_partial_line
ends_line-terminated c = elim (Bool-cases (ends_line c)) [
  | inl e ↦ rw e e
  | inr e ↦ rw e (ends_line-newline c)
]

pub lines_of-terminated : (c : Bytes) → lines_of (terminate_partial_line c) ≡ lines_of c
unfolding terminate_partial_line
lines_of-terminated c = elim (Bool-cases (ends_line c)) [
  | inl e ↦ rw e refl
  | inr e ↦ rw e (lines_of-ended c e)
]

pub lines_of-record : (line : Bytes) → IsRecord line → lines_of (line ++ newline ∷ []) ≡ line ∷ []
unfolding lines_of
lines_of-record [] h = refl
lines_of-record (b ∷ bs) (e, h) = rw e (ap (prepend b) (lines_of-record bs h))

-- A write that failed leaves at most one line, and it holds nothing but a part of the record.
pub lines_of-piece :
    (n : ℕ) (line : Bytes)
    → IsRecord line
    → lines_of (first_bytes n (line ++ newline ∷ [])) ≡ piece n line
unfolding lines_of
lines_of-piece zero line h = refl
lines_of-piece (suc zero) [] h = refl
lines_of-piece (suc (suc n)) [] h = refl
lines_of-piece (suc zero) (b ∷ bs) (e, h) = rw e refl
lines_of-piece (suc (suc n)) (b ∷ bs) (e, h) = rw e (ap (prepend b) (lines_of-piece (suc n) bs h))

pub ends_line-record : (c line : Bytes) → ends_line (c ++ (line ++ newline ∷ [])) ≡ true
ends_line-record c line =
    let e = append_assoc c line (newline ∷ []) in
    subst (λ content. ends_line content ≡ true) e (ends_line-newline (c ++ line))
