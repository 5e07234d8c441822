-- ===== src/Csv/Chunks.antt =====
-- The reader's result does not depend on where the text is cut.
use build_affiliate.Common.{
  ℕ, arith, append_assoc, if◌then◌else◌, ◌≡◌, refl, ◌≢◌, false, List, [], ◌∷◌, ◌++◌, ap, sym, ◌∙◌,
  Bool-cases, inl, inr, ◌==◌,
}
use build_affiliate.Csv.{Text, bom}
use build_affiliate.Csv.Reader.{
  begin, outside, inside, after_quote, finish, CsvRecord, CsvStreamParser, step, run, push,
  strip_bom,
}

-- The chunks in turn, with the records of all of them.
abbrev pub joined : List Text → Text
joined [] = []
joined (chunk ∷ chunks) = chunk ++ joined chunks

unfoldable pub push_all : CsvStreamParser → List Text → CsvStreamParser × List CsvRecord
push_all p [] = (p, [])
push_all p (chunk ∷ chunks) =
    let (q, records) = push p chunk in let (r, more) = push_all q chunks in (r, records ++ more)

pub run-append :
    (p : CsvStreamParser) (s t : Text)
    → run p (s ++ t) ≡ ((run (run p s).0 t).0, (run p s).1 ++ (run (run p s).0 t).1)
unfolding run
run-append p [] t = refl
run-append p (ch ∷ s) t =
    let q = (step p ch).0 in
    let rest = run-append q s t in
    λ i. (
      (rest i).0,
      (ap (λ (x : List CsvRecord). (step p ch).1 ++ x) (λ j. (rest j).1)
            ∙ sym (append_assoc (step p ch).1 (run q s).1 (run (run q s).0 t).1))
          i,
    )

-- After the first chunk no chunk looks for a byte-order mark.
begin_keeps : (p : CsvStreamParser) → (begin p).at_file_start ≡ p.at_file_start
unfolding begin
begin_keeps p = ground arith

step_keeps :
    (p : CsvStreamParser) (ch : ℕ) → p.at_file_start ≡ false → (step p ch).0.at_file_start ≡ false
unfolding step after_quote inside outside begin finish
step_keeps p ch h = ground arith

run_keeps :
    (p : CsvStreamParser) (s : Text) → p.at_file_start ≡ false → (run p s).0.at_file_start ≡ false
unfolding run
run_keeps p [] h = h
run_keeps p (ch ∷ s) h = run_keeps (step p ch).0 s (step_keeps p ch h)

push_started : (p : CsvStreamParser) (s : Text) → p.at_file_start ≡ false → push p s ≡ run p s
unfolding push
push_started p s h = rw h refl

push_all-run :
    (p : CsvStreamParser) (chunks : List Text)
    → p.at_file_start ≡ false
    → push_all p chunks ≡ run p (joined chunks)
unfolding push_all run
push_all-run p [] h = refl
push_all-run p (chunk ∷ chunks) h =
    rw (push_started p chunk h, push_all-run (run p chunk).0 chunks (run_keeps p chunk h))
      (sym (run-append p chunk (joined chunks)))

strip_bom-append :
    (chunk rest : Text) → chunk ≢ [] → strip_bom (chunk ++ rest) ≡ strip_bom chunk ++ rest
strip_bom-append [] rest h = absurd (h refl)
strip_bom-append (ch ∷ chunk) rest h = elim (Bool-cases (ch == bom)) [
  | inl mark_ ↦ rw mark_ refl
  | inr other_ ↦ rw other_ refl
]

push-append :
    (p : CsvStreamParser) (chunk rest : Text)
    → chunk ≢ []
    → push p (chunk ++ rest)
      ≡ ((run (push p chunk).0 rest).0, (push p chunk).1 ++ (run (push p chunk).0 rest).1)
unfolding push
push-append p chunk rest h = elim (Bool-cases p.at_file_start) [
  | inl first_ ↦ rw (first_, strip_bom-append chunk rest h) (run-append _ (strip_bom chunk) rest)
  | inr later_ ↦ rw later_ (run-append _ chunk rest)
]

push_keeps : (p : CsvStreamParser) (chunk : Text) → (push p chunk).0.at_file_start ≡ false
unfolding push
push_keeps p chunk = run_keeps _ (if p.at_file_start then strip_bom chunk else chunk) refl

-- Wherever a file is cut, also inside an escaped quote, the chunks pushed in turn give the records,
-- with their line numbers, and leave the parser as the whole file in one push does, provided that the
-- first chunk is not empty.
pub push_all-whole :
    (p : CsvStreamParser) (chunk : Text) (chunks : List Text)
    → chunk ≢ []
    → push_all p (chunk ∷ chunks) ≡ push p (chunk ++ joined chunks)
unfolding push_all
push_all-whole p chunk chunks h =
    rw (push_all-run (push p chunk).0 chunks (push_keeps p chunk))
      (sym (push-append p chunk (joined chunks) h))
