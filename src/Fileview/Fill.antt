-- ===== src/Fileview/Fill.antt =====
-- How the loop of fileview.c fills `buffer[]`. The file is a parameter: what it holds, and how many
-- bytes a `read` at an offset hands over, which may be fewer than were asked for.
use linux_summary.Base.{
  ℕ, zero, suc, ◌+◌, ◌-◌, ◌≤◌, ◌<◌, ◌≡◌, refl, sym, ap, List, [], ◌++◌, ◌==◌, if◌then◌else◌, length,
  take, drop, replicate, length-take, length-drop, length-append, length-replicate, arith,
  Bool-cases, inl, inr, All, All-append, All-take, All-drop, All-replicate, ==_iff, dec_lt,
  take-nil, drop_end, take-add, drop-add,
}

pub record File : Type 0 where
  pub contents : List ℕ
  pub chunk : (offset ask : ℕ) → ℕ

-- What `read` promises: no more than is asked for or left, and something where there is something.
pub record IsFile (file : File) : Type 0 where
  pub asked : (offset ask : ℕ) → file.chunk offset ask ≤ ask
  pub left : (offset ask : ℕ) → file.chunk offset ask ≤ length file.contents - offset
  pub some_bytes :
      (offset ask : ℕ) → 0 < ask → offset < length file.contents → 0 < file.chunk offset ask

abbrev pub buf_size : ℕ
buf_size = 256

-- `read(fd, where, to_read)` at an offset
unfoldable pub read : File → ℕ → ℕ → List ℕ
read file offset ask = take (file.chunk offset ask) (drop offset file.contents)

-- `while (to_read > 0)`: the bytes that the rounds bring, with one unit of fuel for each round.
unfoldable pub fill_loop : File → ℕ → ℕ → ℕ → List ℕ
unfolding read
fill_loop file zero offset to_read = []
fill_loop file (suc fuel) offset to_read =
    let bytes = read file offset to_read in
    let more = bytes ++ fill_loop file fuel (offset + length bytes) (to_read - length bytes) in
    if to_read == 0 then [] else (if length bytes == 0 then [] else more)

-- The buffer for a position: erased to ~0, then filled as far as the file goes.
unfoldable pub fill : File → ℕ → List ℕ
unfolding fill_loop
fill file position =
    let bytes = fill_loop file buf_size position buf_size in
    bytes ++ replicate (buf_size - length bytes) 0xFF

length-read : {file : File} → IsFile file → (o n : ℕ) → length (read file o n) ≡ file.chunk o n
unfolding read
length-read {file} is o n = omega (
  arith,
  length-take (file.chunk o n) (drop o file.contents),
  length-drop o file.contents,
  is.left o n,
)

take_none : (n : ℕ) (xs : List ℕ) → n ≡ 0 → take n xs ≡ []
take_none zero xs h = refl
take_none (suc n) xs h = absurd (omega arith)

module _ {file : File} (is : IsFile file) where
  -- A read that brings nothing stands at the end of the file.
  at_end : (o n : ℕ) → 0 < n → length (read file o n) ≡ 0 → take n (drop o file.contents) ≡ []
  at_end o n h e = elim (dec_lt o (length file.contents)) [
    | yes before ↦ absurd (omega (arith, length-read is o n, is.some_bytes o n h before))
    | no past ↦ rw (drop_end o file.contents (omega arith)) (take-nil n)
  ]

  read-append :
      (o n : ℕ)
      → read file o n
          ++ take (n - length (read file o n)) (drop (o + length (read file o n)) file.contents)
        ≡ take n (drop o file.contents)
  unfolding read
  read-append o n =
      let c = file.chunk o n in
      rw (length-read is o n, drop-add o c file.contents, ← take-add c (n - c))
        (ap (λ k. take k (drop o file.contents)) (omega (arith, is.asked o n)))

  -- With fuel for every byte, the rounds bring what the file holds from the offset on, however the
  -- reads are split.
  fill_loop-take :
      (fuel o n : ℕ) → n ≤ fuel → fill_loop file fuel o n ≡ take n (drop o file.contents)
  unfolding fill_loop
  fill_loop-take zero o n h = sym (take_none n (drop o file.contents) (omega arith))
  fill_loop-take (suc fuel) o n h = elim (Bool-cases (n == 0)) [
    | inl done ↦ rw done (sym (take_none n (drop o file.contents) ((==_iff n 0).0 done)))
    | inr more ↦
        let got = length (read file o n) in
        rw more (elim (Bool-cases (got == 0)) [
          | inl empty ↦ rw empty (sym (at_end o n (ground arith) ((==_iff got 0).0 empty)))
          | inr bytes ↦
              rw (bytes, fill_loop-take fuel (o + got) (n - got) (ground arith)) (read-append o n)
        ])
  ]

  -- The buffer holds the file's bytes from the position on, and ~0 behind the end of the file,
  -- however many bytes each read hands over; it has 256 bytes.
  pub fill_lem :
      (position : ℕ)
      → let bytes = take 256 (drop position file.contents) in
        (fill file position ≡ bytes ++ replicate (256 - length bytes) 0xFF)
        × (length (fill file position) ≡ 256)
  unfolding fill
  fill_lem position =
      let bytes = take 256 (drop position file.contents) in
      rw (fill_loop-take 256 position 256 (omega arith)) (
        refl,
        omega (
          arith,
          length-append bytes (replicate (256 - length bytes) 0xFF),
          length-replicate {A = ℕ} (256 - length bytes) 0xFF,
          length-take 256 (drop position file.contents),
        ),
      )

  pub fill-All :
      (P : ℕ → Type 0) (position : ℕ) → P 0xFF → All P file.contents → All P (fill file position)
  fill-All P position erased bytes =
      let got = take 256 (drop position file.contents) in
      rw ((fill_lem position).0) (
        All-append P got (replicate (256 - length got) 0xFF)
          (All-take P 256 (drop position file.contents) (All-drop P position file.contents bytes))
          (All-replicate P (256 - length got) 0xFF erased))
